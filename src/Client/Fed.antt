-- ===== src/Client/Fed.antt =====
-- What a read of a buffer (src/client/client_admin.cpp, `_extractFromBuffer`) does to the streams of a
-- client.
use Prim.Native.String.{String}
use tosdata_bridge.Prelude.{
  ℕ, ◌+◌, ◌-◌, ◌^◌, ◌<◌, ◌≡◌, refl, sym, ap, ap₂, ◌∙◌, Bool, true, false, ◌&&◌, Option, none, some,
  List, [], ◌∷◌, length, map, drop, arith, if◌then◌else◌, Option-cases, Bool-cases, inl, inr,
}
use tosdata_bridge.Prelude.Action.{Result, ok}
use tosdata_bridge.Prelude.Dict.{lookup, contains, Distinct, Every-lookup}
use tosdata_bridge.Prelude.Table.{pair_eq}
use tosdata_bridge.Topics.Enum.{Topic}
use tosdata_bridge.Topics.Map.{topic_eq, text_eq}
use tosdata_bridge.Block.Interface.{StreamClass, StreamLaws}
use tosdata_bridge.Block.Invariant
use tosdata_bridge.Block.Insert.{stream_at}
use tosdata_bridge.Block.Lookup.{raw_stream_ptr-has_item}
use tosdata_bridge.Block.Frame.{has_item, has_topic}
use tosdata_bridge.Shared.State.{Buffer, Reader, BufferError, synced, extract_from_buffer}
use tosdata_bridge.Shared.Ring.{IsRing}
use tosdata_bridge.Shared.Writes.{route_all}
use tosdata_bridge.Shared.Delivery.{extract-route_all}
use tosdata_bridge.Client.State.{TosdBlock, Client}
use tosdata_bridge.Client.Holders.{holds, IsRead}
use tosdata_bridge.Client.Safety.{IsSafe}
use tosdata_bridge.Client.Extract.{
  Blocks, Found, ExtractError, insert_into, insert_elems, extract_into_blocks,
}
use tosdata_bridge.Client.Feeding.{stream_in, changed, pushed, pushes, Fed, insert_into-stream_in}
use tosdata_bridge.Getters.Untouched.{AllValid, stream_at-IsStream}

changed_same : {S : Type 0} (b : Bool) (o : Option S) → o ≡ (if b then changed (λ p. p) o else o)
changed_same true none = refl
changed_same true (some p) = refl
changed_same false o = refl

changed_twice :
    {S : Type 0} (b : Bool) (f g : S → S) (o n z : Option S)
    → n ≡ (if b then changed f o else o)
    → z ≡ (if b then changed g n else n)
    → z ≡ (if b then changed (λ p. g (f p)) o else o)
changed_twice true f g none n z h e = ground (arith, h, e)
changed_twice true f g (some p) n z h e = ground (arith, h, e)
changed_twice false f g o n z h e = ground (arith, h, e)

module _ {E V G D S : Type 0} (c : StreamClass E V G D S) (t : Topic) (i : String)
    (Good : S → Type 0) (Fit : V × D → Type 0)
    (takes : (got : Bool) (x : V × D) (p : S)
      → Fit x
      → Good p
      → ((c.push got x.0 x.1 p).0 ≡ ok tt) × Good (c.push got x.0 x.1 p).1) where
  abbrev AllFit : List (V × D) → Type 0
  AllFit [] = Unit
  AllFit (x ∷ xs) = Fit x × AllFit xs

  -- What some elements do to the stream of a block in the list, and to all others.
  insert_elems-stream_in :
      (got : ℕ → String → Bool) (ids : List String) (xs : List (V × D)) (blocks : Blocks S)
      → AllFit xs
      → Distinct ids
      → Fed c t i Good Fit takes ids blocks
      → ((insert_elems c got t i ids xs blocks).0 ≡ ok tt)
        × ((k : String)
            → stream_in k i t (insert_elems c got t i ids xs blocks).1 ≡ (
                if contains k ids
                then changed (pushes c (λ n. got n k) xs) (stream_in k i t blocks)
                else stream_in k i t blocks))
        × ((k j : String) (u : Topic)
            → (text_eq.beq i j && topic_eq.beq t u) ≡ false
            → stream_in k j u (insert_elems c got t i ids xs blocks).1 ≡ stream_in k j u blocks)
  unfolding insert_elems
  insert_elems-stream_in got ids [] blocks fit d fed =
      (refl, λ k. changed_same (contains k ids) (stream_in k i t blocks), λ k j u h. refl)
  insert_elems-stream_in got ids (x ∷ xs) blocks fit d fed =
      let g = got (length xs + 1) in
      let (r, same, others) =
        insert_into-stream_in c t i Good Fit takes g x ids blocks fit.0 d fed in
      let next = (insert_into c g t i x ids blocks).1 in
      let e : insert_elems c got t i ids (x ∷ xs) blocks ≡ insert_elems c got t i ids xs next =
        rw (insert_elems, r) refl in
      let still : Fed c t i Good Fit takes ids next = λ k h.
        let (p, at, good) = fed k h in
        (pushed c (g k) x p, same k ∙ rw (h, at) refl, (takes (g k) x p fit.0 good).1) in
      let (r', same', others') = insert_elems-stream_in got ids xs next fit.1 d still in
      (
        ap (λ z. z.0) e ∙ r',
        λ k.
            ap (λ z. stream_in k i t z.1) e
            ∙ changed_twice (contains k ids) (pushed c (g k) x) (pushes c (λ n. got n k) xs)
                (stream_in k i t blocks) (stream_in k i t next)
                (stream_in k i t (insert_elems c got t i ids xs next).1) (same k) (same' k),
        λ k j u h. ap (λ z. stream_in k j u z.1) e ∙ others' k j u h ∙ others k j u h,
      )

stream_in_of :
    {S : Type 0} (k i j : String) (t u : Topic) (blocks : Blocks S)
    → (text_eq.beq i j && topic_eq.beq t u) ≡ true
    → stream_in k j u blocks ≡ stream_in k i t blocks
stream_in_of k i j t u blocks h =
    ap₂ (λ (x : String) (v : Topic). stream_in k x v blocks)
      (sym ((text_eq.beq_iff i j).0 (ground (arith, h))))
      (sym ((topic_eq.beq_iff t u).0 (ground (arith, h))))

-- The newest elements that a ring of `n` places has of some writes, and a read after the writes by who
-- had read all.
module _ {E V G D S X : Type 0} (c : StreamClass E V G D S) (cast : X → V × D) where
  abbrev pub news : ℕ → List X → List (V × D)
  news n ws = map cast (drop (length ws - n) ws)

  abbrev pub extracted :
      Topic
      → String
      → (ℕ → String → Bool)
      → List X
      → Buffer X
      → List String
      → Blocks S
      → Result ExtractError (Unit {0}) × (Reader × Blocks S)
  extracted t i got ws b ids =
      extract_into_blocks c cast t i (record { buffer = route_all ws b; busy = false; got = got })
        (synced b, ids)

module _ {E V G D S X : Type 0} (c : StreamClass E V G D S) (cast : X → V × D) (t : Topic)
    (i : String) (found : Found X) (r next : Reader) (ids : List String) (blocks : Blocks S)
    (xs : List X) where
  extract_into_blocks-ok :
      extract_from_buffer found.busy r found.buffer ≡ (ok xs, next)
      → (insert_elems c found.got t i ids (map cast xs) blocks).0 ≡ ok tt
      → extract_into_blocks c cast t i found (r, ids) blocks
        ≡ (ok tt, (next, (insert_elems c found.got t i ids (map cast xs) blocks).1))
  unfolding extract_into_blocks
  extract_into_blocks-ok e h =
      rw (extract_into_blocks, e, h)
        (ap
          (λ (z : Result BufferError (List X) × Reader).
            (ok tt, (z.1, (insert_elems c found.got t i ids (map cast xs) blocks).1)))
          e)

module _ {E V G D S X : Type 0} {c : StreamClass E V G D S} (laws : StreamLaws c)
    (element_of : Topic → E) (cast : X → V × D) (t : Topic) (i : String)
    (accepts : (got : Bool) (x : X) (p : S)
      → laws.Sound p
      → c.element p ≡ element_of t
      → (c.push got (cast x).0 (cast x).1 p).0 ≡ ok tt) where
  abbrev Good : S → Type 0
  Good p = laws.Sound p × (c.element p ≡ element_of t)

  abbrev IsCast : V × D → Type 0
  IsCast v = (x : X) × (v ≡ cast x)

  takes :
      (got : Bool) (v : V × D) (p : S)
      → IsCast v
      → Good p
      → ((c.push got v.0 v.1 p).0 ≡ ok tt) × Good (c.push got v.0 v.1 p).1
  takes got v p (x, e) (sound, typed) = (
    ap (λ (z : V × D). (c.push got z.0 z.1 p).0) e ∙ accepts got x p sound typed,
    (laws.push-Sound got v.0 v.1 p sound, (laws.push-HasShape got v.0 v.1 p).typed ∙ typed),
  )

  casts-AllFit : (xs : List X) → AllFit c t i Good IsCast takes (map cast xs)
  casts-AllFit [] = tt
  casts-AllFit (x ∷ xs) = ((x, refl), casts-AllFit xs)

  -- The blocks that a buffer of a safe client is read for have its stream.
  safe-Fed :
      (r : Reader) (ids : List String) (s : Client S)
      → IsSafe s
      → AllValid laws element_of s
      → lookup (t, i) s.buffers ≡ some (r, ids)
      → Fed c t i Good IsCast takes ids s.dde_blocks
  unfolding has_item has_topic
  safe-Fed r ids s v w b id h =
      let live = v.live id t i (rw b h) in
      elim (Option-cases (lookup id s.dde_blocks)) [
        | inl g ↦ absurd (ground (arith, live, g))
        | inr (db, g) ↦
            let valid =
              Every-lookup
                (λ (id : String) (db : TosdBlock S). Invariant.IsValid laws element_of db.block) id
                db s.dde_blocks w g in
            let there = (raw_stream_ptr-has_item laws element_of i t db.block valid).1 in
            elim (Option-cases (stream_at i t db.block)) [
              | inl k ↦ absurd (ground (arith, live, g, there, k))
              | inr (p, k) ↦
                  let st = stream_at-IsStream laws element_of i t p db.block valid k in
                  (p, rw (stream_in, g) k, (st.0, st.1.typed))
            ]
      ]

  module _ (n q : ℕ) (ws : List X) {b : Buffer X} (got : ℕ → String → Bool) (ids : List String)
      (s : Client S) (ring : IsRing n q b) (few : length ws < 2 ^ 31) (safe : IsSafe s)
      (valid : AllValid laws element_of s)
      (held : lookup (t, i) s.buffers ≡ some (synced b, ids)) where
    -- Let each block that a buffer is read for exist and have the buffer's stream, all blocks be valid,
    -- and a valid stream of the topic take what is in the buffer. All of a buffer of `n` places has been
    -- read, and then come any writes, less than 2^31. The next read that gets the mutex does not throw,
    -- and has read all; it pushes the new elements, if more than `n` the newest of them, in the order of
    -- the writes into the stream of each block that the buffer is read for, once, and changes no other
    -- stream.
    pub extract_into_blocks-route_all :
        ((extracted c cast t i got ws b ids s.dde_blocks).0 ≡ ok tt)
        × ((extracted c cast t i got ws b ids s.dde_blocks).1.0 ≡ synced (route_all ws b))
        × ((k j : String) (u : Topic)
            → stream_in k j u (extracted c cast t i got ws b ids s.dde_blocks).1.1 ≡ (
                if (text_eq.beq i j && topic_eq.beq t u) && holds k t i s.buffers
                then changed
                    (pushes c (λ m. got m k) (news c cast n ws))
                    (stream_in k i t s.dde_blocks)
                else stream_in k j u s.dde_blocks))
    extract_into_blocks-route_all =
        let e = extract-route_all n q ws ring few in
        let d = (Every-lookup IsRead (t, i) (synced b, ids) s.buffers safe.all_read held).1 in
        let (r, same, others) =
          insert_elems-stream_in c t i Good IsCast takes got ids (news c cast n ws) s.dde_blocks
            (casts-AllFit (drop (length ws - n) ws)) d
            (safe-Fed (synced b) ids s safe valid held) in
        let after = (insert_elems c got t i ids (news c cast n ws) s.dde_blocks).1 in
        let done : extracted c cast t i got ws b ids s.dde_blocks
            ≡ (ok tt, (synced (route_all ws b), after)) =
          extract_into_blocks-ok c cast t i
            (record { buffer = route_all ws b; busy = false; got = got }) (synced b)
            (synced (route_all ws b)) ids s.dde_blocks (drop (length ws - n) ws) e r in
        (
          ap (λ z. z.0) done,
          ap (λ z. z.1.0) done,
          λ k j u.
              ap (λ z. stream_in k j u z.1.1) done
              ∙ elim (Bool-cases (text_eq.beq i j && topic_eq.beq t u)) [
                | inr h ↦ others k j u h ∙ ground (arith, h)
                | inl h ↦
                    let x : stream_in k j u after ≡ stream_in k i t after =
                      stream_in_of k i j t u after h in
                    let y = stream_in_of k i j t u s.dde_blocks h in
                    x
                    ∙ same k
                    ∙ rw (h, held)
                        (ap
                          (λ z.
                            if contains k ids
                            then changed (pushes c (λ m. got m k) (news c cast n ws))
                                (stream_in k i t s.dde_blocks)
                            else z)
                          (sym y))
              ],
        )
