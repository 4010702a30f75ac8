-- ===== src/Shared/Writes.antt =====
-- Writes in a row: the place, the laps and what the ring holds afterwards.
use mathlib.Core.List.{append-nil, append_assoc}
use native.Mathlib.Nat.{add-mul}
use tosdata_bridge.Prelude.{
  ℕ, suc, ◌+◌, ◌*◌, ◌≤◌, ◌≡◌, refl, sym, subst, ◌∙◌, List, [], ◌∷◌, ◌++◌, arith, leb, if◌then◌else◌,
  length,
}
use tosdata_bridge.Shared.State.{Buffer, uint, route_to_buffer}
use tosdata_bridge.Shared.Ring.{IsRing, next_place, route_to_buffer-IsRing}
use tosdata_bridge.Shared.History.{Holds, route_to_buffer-Holds, elem_size-route_to_buffer}

module _ {X : Type 0} where
  -- Writes in a row.
  unfoldable pub route_all : List X → Buffer X → Buffer X
  route_all [] b = b
  route_all (x ∷ xs) b = route_all xs (route_to_buffer x b)

  -- After writes from place `q` on: the place that is next, the laps, and what the ring holds.
  pub record Written (n q : ℕ) (b : Buffer X) (written xs : List X) (t : Buffer X) : Type 0 where
    pub place : ℕ
    pub laps : ℕ
    pub ring : IsRing n place t
    pub holds : Holds n place t (written ++ xs)
    pub counted : place + laps * n ≡ q + length xs
    pub few : laps ≤ length xs
    pub looped : t.loop_seq ≡ uint (b.loop_seq + laps)
    pub sized : t.elem_size ≡ b.elem_size

  pub route_all-Written :
      (n q : ℕ) (xs : List X) (b : Buffer X) (written : List X)
      → IsRing n q b
      → Holds n q b written
      → Written n q b written xs (route_all xs b)
  unfolding route_all
  route_all-Written n q [] b written r h = record {
    place = q;
    laps = 0;
    ring = r;
    holds = subst (Holds n q b) (sym (append-nil written)) h;
    counted = omega arith;
    few = omega arith;
    looped = omega (arith, r);
    sized = refl;
  }
  route_all-Written n q (x ∷ xs) b written r h =
      let (s, l) = route_to_buffer-IsRing r x in
      let w =
        route_all-Written n (next_place n q) xs (route_to_buffer x b) (written ++ x ∷ []) s
          (route_to_buffer-Holds n q x b written r h) in
      record {
        place = w.place;
        laps = if leb n (q + 1) then suc w.laps else w.laps;
        ring = w.ring;
        holds =
            subst (Holds n w.place (route_all xs (route_to_buffer x b)))
              (append_assoc written (x ∷ []) xs) w.holds;
        counted = ground (arith, w.counted, r, add-mul w.laps 1 n);
        few = ground (arith, w.few);
        looped = ground (arith, w.looped, l, r);
        sized = w.sized ∙ elem_size-route_to_buffer x b;
      }
