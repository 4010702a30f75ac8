-- ===== src/Client/Adding.antt =====
-- `TOSDB_Add` (src/client/client_admin.cpp): the buffers that it captures, and the block.
use Prim.Native.String.{String}
use tosdata_bridge.Prelude.{
  suc, ◌≡◌, refl, sym, ap₂, ◌∙◌, Bool, true, false, ◌&&◌, Option, none, some, List, [], ◌∷◌, is_nil,
  arith, if◌then◌else◌, Bool-cases, inl, inr,
}
use tosdata_bridge.Prelude.Int.{pos, eqb_ℤ}
use tosdata_bridge.Prelude.Dict.{contains, beq_refl, Every}
use tosdata_bridge.Prelude.Table.{pair_eq}
use tosdata_bridge.Topics.Enum.{Topic}
use tosdata_bridge.Topics.Map.{topic_eq, text_eq}
use tosdata_bridge.Engine.Handling.{sig_add}
use tosdata_bridge.Client.State.{TosdBlock, Buffers, Outside, add_name, capture_buffer}
use tosdata_bridge.Client.Add.{Progress, request_add, add_to_items, add_new_topics, add_new_items}
use tosdata_bridge.Client.Holders.{holds, IsRead, same, holds-capture, capture-IsRead}

-- Whether the block has the stream.
abbrev pub has_stream : {S : Type 0} → Topic → String → TosdBlock S → Bool
has_stream t i db = contains i db.block.item_names && contains t db.block.topic_enums

-- The block has all streams whose buffers are read for it.
abbrev pub Covers : {S : Type 0} → String → TosdBlock S → Buffers → Type 0
Covers id db bs = (u : Topic) (j : String) → holds id u j bs ≡ true → has_stream u j db ≡ true

-- A change of a block by which it has a stream, and loses none.
pub record Takes {S : Type 0} (change : TosdBlock S → TosdBlock S) (t : Topic) (i : String)
    (db : TosdBlock S) : Type 0 where
  pub new_item : contains i (change db).block.item_names ≡ true
  pub new_topic : contains t (change db).block.topic_enums ≡ true
  pub items :
      (j : String)
      → contains j db.block.item_names ≡ true
      → contains j (change db).block.item_names ≡ true
  pub topics :
      (u : Topic)
      → contains u db.block.topic_enums ≡ true
      → contains u (change db).block.topic_enums ≡ true

abbrev pub Grown : {S : Type 0} → List Topic → TosdBlock S → Type 0
Grown old db = (u : Topic) → contains u old ≡ true → contains u db.block.topic_enums ≡ true

-- What holds during the loops: `bs` are the buffers before them, and `old` the topics.
pub record IsKept {S : Type 0} (id : String) (bs : Buffers) (old : List Topic) (db : TosdBlock S)
    (now : Buffers) : Type 0 where
  pub covered : Covers id db now
  pub others :
      (k : String) (u : Topic) (j : String)
      → text_eq.beq id k ≡ false
      → holds k u j now ≡ holds k u j bs
  pub all_read : Every IsRead bs → Every IsRead now
  pub grown : Grown old db

module _ {S W : Type 0} (o : Outside W) (id : String) (bs : Buffers) (old : List Topic) where
  abbrev pub Kept : Bool × Progress S W → Type 0
  Kept r = IsKept id bs old r.1.db r.1.buffers

  grows :
      (change : TosdBlock S → TosdBlock S) (t : Topic) (i : String) (db : TosdBlock S) (u : Topic)
      (j : String)
      → Takes change t i db
      → has_stream u j db ≡ true
      → has_stream u j (change db) ≡ true
  grows change t i db u j k h =
      ground (arith, h, k.items j (ground (arith, h)), k.topics u (ground (arith, h)))

  captured-covered :
      (change : TosdBlock S → TosdBlock S) (t : Topic) (i : String) (db : TosdBlock S)
      (now next : Buffers) (opened : Bool)
      → Takes change t i db
      → Covers id db now
      → capture_buffer t i id opened now ≡ some next
      → Covers id (change db) next
  captured-covered change t i db now next opened k v h u j g = elim (Bool-cases (same t i u j)) [
    | inl e ↦
        let p : t ≡ u = (topic_eq.beq_iff t u).0 (ground (arith, e)) in
        let q : i ≡ j = (text_eq.beq_iff i j).0 (ground (arith, e)) in
        ap₂ (λ a b. has_stream a b (change db)) (sym p) (sym q)
        ∙ ground (arith, k.new_item, k.new_topic)
    | inr e ↦
        let w : holds id u j now ≡ true =
          sym (holds-capture t i id opened now next h id u j ∙ rw e) ∙ g in
        grows change t i db u j k (v u j w)
  ]

  module _ (change : TosdBlock S → TosdBlock S) (t : Topic) (i : String) (p : Progress S W)
      (k : Takes change t i p.db) (v : IsKept id bs old p.db p.buffers) where
    taken_only : IsKept id bs old (change p.db) p.buffers
    taken_only = record {
      covered = λ u j h. grows change t i p.db u j k (v.covered u j h);
      others = v.others;
      all_read = v.all_read;
      grown = λ u h. k.topics u (v.grown u h);
    }

    captured :
        (opened : Bool) (next : Buffers)
        → capture_buffer t i id opened p.buffers ≡ some next
        → IsKept id bs old (change p.db) next
    captured opened next h = record {
      covered = captured-covered change t i p.db p.buffers next opened k v.covered h;
      others = λ x u j e.
          holds-capture t i id opened p.buffers next h x u j ∙ ground (arith, e) ∙ v.others x u j e;
      all_read = λ r. capture-IsRead t i id opened p.buffers next h (v.all_read r);
      grown = λ u g. k.topics u (v.grown u g);
    }

    granted :
        (b : Bool) (w : W) (o1 : Option Buffers)
        → capture_buffer t i id (o.opens t i w) p.buffers ≡ o1
        → Kept (
            if b
            then elim o1 [
              | none ↦ (false, record p { db = change p.db; world = w })
              | some next ↦ (true, record p { db = change p.db; buffers = next; world = w })
            ]
            else (true, record p { failures = suc p.failures; world = w }))
    granted true w none h = taken_only
    granted true w (some next) h = captured (o.opens t i w) next h
    granted false w o1 h = v

    request_add-Kept : Kept (request_add o id change t i p)
    unfolding request_add
    request_add-Kept =
        let r = o.ask t i p.db.timeout sig_add p.world in
        granted (eqb_ℤ r.0 (pos 0)) r.1 (capture_buffer t i id (o.opens t i r.1) p.buffers) refl

  -- What is pre-cached does not matter.
  cached :
      (t : Topic) (p : Progress S W)
      → IsKept id bs old p.db p.buffers
      → (b : Bool)
      → let p1 : Progress S W =
          if b
          then record p { db = record p.db { topic_precache = add_name t p.db.topic_precache } }
          else p in
        IsKept id bs old p1.db p1.buffers
  cached t p v true = record {
    covered = v.covered;
    others = v.others;
    all_read = v.all_read;
    grown = v.grown;
  }
  cached t p v false = v

  pub Kept-if :
      (b : Bool) (q : Progress S W) (rest : Bool × Progress S W)
      → Kept (b, q)
      → Kept rest
      → Kept (if b then rest else (false, q))
  Kept-if true q rest h k = k
  Kept-if false q rest h k = h

  module _ (change : Topic → String → TosdBlock S → TosdBlock S) where
    abbrev CanTake : Topic → Type 0
    CanTake t = (i : String) (db : TosdBlock S) → Grown old db → Takes (change t i) t i db

    add_to_items-Kept :
        (t : Topic)
        → CanTake t
        → (items : List String) (p : Progress S W) → IsKept id bs old p.db p.buffers
        → Kept (add_to_items o id change t items p)
    unfolding add_to_items
    add_to_items-Kept t c [] p v = v
    add_to_items-Kept t c (i ∷ items) p v =
        let r = request_add o id (change t i) t i p in
        let k = request_add-Kept (change t i) t i p (c i p.db v.grown) v in
        Kept-if r.0 r.1 (add_to_items o id change t items r.1) k (add_to_items-Kept t c items r.1 k)

    pub add_new_items-Kept :
        (ts : List Topic)
        → ((t : Topic) → contains t ts ≡ true → CanTake t)
        → (items : List String) (p : Progress S W) → IsKept id bs old p.db p.buffers
        → Kept (add_new_items o id change ts items p)
    unfolding add_new_items
    add_new_items-Kept [] c items p v = v
    add_new_items-Kept (t ∷ ts) c items p v =
        let r = add_to_items o id change t items p in
        let k = add_to_items-Kept t (c t (ground (arith, beq_refl t))) items p v in
        Kept-if r.0 r.1 (add_new_items o id change ts items r.1) k
          (add_new_items-Kept ts (λ u h. c u (ground (arith, h))) items r.1 k)

    pub add_new_topics-Kept :
        (ts : List Topic)
        → ((t : Topic) → CanTake t)
        → (items : List String) (p : Progress S W) → IsKept id bs old p.db p.buffers
        → Kept (add_new_topics o id change ts items p)
    unfolding add_new_topics
    add_new_topics-Kept [] c items p v = v
    add_new_topics-Kept (t ∷ ts) c items p v =
        let p1 : Progress S W =
          if is_nil items
          then record p { db = record p.db { topic_precache = add_name t p.db.topic_precache } }
          else p in
        let v1 : IsKept id bs old p1.db p1.buffers = cached t p v (is_nil items) in
        let r = add_to_items o id change t items p1 in
        let k = add_to_items-Kept t (c t) items p1 v1 in
        Kept-if r.0 r.1 (add_new_topics o id change ts items r.1) k
          (add_new_topics-Kept ts c items r.1 k)
