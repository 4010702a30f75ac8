-- ===== src/Client/Granting.antt =====
-- `TOSDB_Add` (src/client/client_admin.cpp) where the engine grants every request.
use Prim.Native.String.{String}
use mathlib.Core.Bool.{false≢true}
use tosdata_bridge.Prelude.{
  suc, ◌≤◌, ◌≡◌, refl, ◌∙◌, Bool, true, false, ◌&&◌, ◌||◌, Option, none, some, List, [], ◌∷◌,
  is_nil, arith, if◌then◌else◌, Bool-cases, inl, inr,
}
use tosdata_bridge.Prelude.Int.{pos, eqb_ℤ}
use tosdata_bridge.Prelude.Dict.{contains, beq_refl}
use tosdata_bridge.Prelude.Table.{pair_eq}
use tosdata_bridge.Topics.Enum.{Topic}
use tosdata_bridge.Topics.Map.{topic_eq, text_eq}
use tosdata_bridge.Engine.Handling.{sig_add}
use tosdata_bridge.Client.State.{TosdBlock, Buffers, Outside, add_name, capture_buffer}
use tosdata_bridge.Client.Add.{Progress, request_add, add_to_items, add_new_topics, add_new_items}
use tosdata_bridge.Client.Holders.{holds, same, holds-capture}

-- Whether a stream is one of a topic with some items, or of some topics with some items.
abbrev row : Topic → List String → Topic → String → Bool
row t items u j = topic_eq.beq t u && contains j items

abbrev pub square : List Topic → List String → Topic → String → Bool
square ts items u j = contains u ts && contains j items

row-step : (a b c : Bool) → (a && (if b then true else c)) ≡ ((a && b) || (a && c))
row-step true true c = refl
row-step true false c = refl
row-step false b c = refl

square-step : (a b c : Bool) → ((if a then true else b) && c) ≡ ((a && c) || (b && c))
square-step true b true = refl
square-step true true false = refl
square-step true false false = refl
square-step false b c = refl

module _ {S W : Type 0} (o : Outside W) (id : String) where
  -- Nothing that is read for the block is lost, and if no request has failed since and none has
  -- thrown, the streams of `P` are read for it.
  pub record Granted (P : Topic → String → Bool) (p : Progress S W) (r : Bool × Progress S W)
      : Type 0 where
    pub kept :
        (u : Topic) (j : String) → holds id u j p.buffers ≡ true → holds id u j r.1.buffers ≡ true
    pub counted : p.failures ≤ r.1.failures
    pub read :
        r.0 ≡ true
        → r.1.failures ≡ p.failures
        → (u : Topic) (j : String) → P u j ≡ true
        → holds id u j r.1.buffers ≡ true

  module _ (change : TosdBlock S → TosdBlock S) (t : Topic) (i : String) (p : Progress S W) where
    granted :
        (b : Bool) (w : W) (o1 : Option Buffers)
        → capture_buffer t i id (o.opens t i w) p.buffers ≡ o1
        → Granted (same t i) p (
            if b
            then elim o1 [
              | none ↦ (false, record p { db = change p.db; world = w })
              | some next ↦ (true, record p { db = change p.db; buffers = next; world = w })
            ]
            else (true, record p { failures = suc p.failures; world = w }))
    granted true w none h = record {
      kept = λ u j g. g;
      counted = omega arith;
      read = λ e f u j g. absurd (false≢true e);
    }
    granted true w (some next) h = record {
      kept =
          λ u j g. holds-capture t i id (o.opens t i w) p.buffers next h id u j ∙ ground (arith, g);
      counted = omega arith;
      read = λ e f u j g.
          holds-capture t i id (o.opens t i w) p.buffers next h id u j
          ∙ ground (arith, g, beq_refl id);
    }
    granted false w o1 h = record {
      kept = λ u j g. g;
      counted = omega arith;
      read = λ e f u j g. absurd (omega (arith, f));
    }

    request_add-Granted : Granted (same t i) p (request_add o id change t i p)
    unfolding request_add
    request_add-Granted =
        let r = o.ask t i p.db.timeout sig_add p.world in
        granted (eqb_ℤ r.0 (pos 0)) r.1 (capture_buffer t i id (o.opens t i r.1) p.buffers) refl

  -- One part of a loop, and the rest.
  pub Granted-if :
      (P Q R : Topic → String → Bool) (p q : Progress S W) (b : Bool) (rest : Bool × Progress S W)
      → ((u : Topic) (j : String) → R u j ≡ (P u j || Q u j))
      → Granted P p (b, q)
      → Granted Q q rest
      → Granted R p (if b then rest else (false, q))
  Granted-if P Q R p q true rest d x y = record {
    kept = λ u j g. y.kept u j (x.kept u j g);
    counted = omega (arith, x.counted, y.counted);
    read = λ e f u j g.
        let same_q : q.failures ≡ p.failures = omega (arith, f, x.counted, y.counted) in
        let same_r : rest.1.failures ≡ q.failures = omega (arith, f, same_q) in
        elim (Bool-cases (P u j)) [
          | inl a ↦ y.kept u j (x.read refl same_q u j a)
          | inr a ↦ y.read e same_r u j (ground (arith, a, g, d u j))
        ];
  }
  Granted-if P Q R p q false rest d x y = record {
    kept = x.kept;
    counted = x.counted;
    read = λ e f u j g. absurd (false≢true e);
  }

  module _ (change : Topic → String → TosdBlock S → TosdBlock S) where
    add_to_items-Granted :
        (t : Topic) (items : List String) (p : Progress S W)
        → Granted (row t items) p (add_to_items o id change t items p)
    unfolding add_to_items
    add_to_items-Granted t [] p = record {
      kept = λ u j g. g;
      counted = omega arith;
      read = λ e f u j g. absurd (ground (arith, g));
    }
    add_to_items-Granted t (i ∷ items) p =
        let r = request_add o id (change t i) t i p in
        Granted-if (same t i) (row t items) (row t (i ∷ items)) p r.1 r.0
          (add_to_items o id change t items r.1)
          (λ u j. row-step (topic_eq.beq t u) (text_eq.beq i j) (contains j items))
          (request_add-Granted (change t i) t i p) (add_to_items-Granted t items r.1)

    from_cached :
        (t : Topic) (items : List String) (p : Progress S W) (r : Bool × Progress S W) (b : Bool)
        → let p1 : Progress S W =
            if b
            then record p { db = record p.db { topic_precache = add_name t p.db.topic_precache } }
            else p in
          Granted (row t items) p1 r → Granted (row t items) p r
    from_cached t items p r true v = record { kept = v.kept; counted = v.counted; read = v.read }
    from_cached t items p r false v = v

    pub add_new_items-Granted :
        (ts : List Topic) (items : List String) (p : Progress S W)
        → Granted (square ts items) p (add_new_items o id change ts items p)
    unfolding add_new_items
    add_new_items-Granted [] items p = record {
      kept = λ u j g. g;
      counted = omega arith;
      read = λ e f u j g. absurd (ground (arith, g));
    }
    add_new_items-Granted (t ∷ ts) items p =
        let r = add_to_items o id change t items p in
        Granted-if (row t items) (square ts items) (square (t ∷ ts) items) p r.1 r.0
          (add_new_items o id change ts items r.1)
          (λ u j. square-step (topic_eq.beq t u) (contains u ts) (contains j items))
          (add_to_items-Granted t items p) (add_new_items-Granted ts items r.1)

    pub add_new_topics-Granted :
        (ts : List Topic) (items : List String) (p : Progress S W)
        → Granted (square ts items) p (add_new_topics o id change ts items p)
    unfolding add_new_topics
    add_new_topics-Granted [] items p = record {
      kept = λ u j g. g;
      counted = omega arith;
      read = λ e f u j g. absurd (ground (arith, g));
    }
    add_new_topics-Granted (t ∷ ts) items p =
        let p1 : Progress S W =
          if is_nil items
          then record p { db = record p.db { topic_precache = add_name t p.db.topic_precache } }
          else p in
        let r = add_to_items o id change t items p1 in
        Granted-if (row t items) (square ts items) (square (t ∷ ts) items) p r.1 r.0
          (add_new_topics o id change ts items r.1)
          (λ u j. square-step (topic_eq.beq t u) (contains u ts) (contains j items))
          (from_cached t items p r (is_nil items) (add_to_items-Granted t items p1))
          (add_new_topics-Granted ts items r.1)
