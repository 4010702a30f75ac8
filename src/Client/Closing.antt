-- ===== src/Client/Closing.antt =====
-- The calls that take topics and items from a block and that close blocks
-- (src/client/client_admin.cpp): the buffers that they release, and the blocks.
use Prim.Native.String.{String}
use tosdata_bridge.Prelude.{
  ℕ, suc, ◌≡◌, refl, ap, ap₂, ◌∙◌, Bool, true, false, ◌&&◌, ◌||◌, List, [], ◌∷◌, is_nil, arith,
  if◌then◌else◌, Option-cases, Bool-cases, inl, inr,
}
use tosdata_bridge.Prelude.Int.{pos, eqb_ℤ}
use tosdata_bridge.Prelude.Dict.{Eq, lookup, contains, contains-remove, Every}
use tosdata_bridge.Prelude.Table.{pair_eq}
use tosdata_bridge.Topics.Enum.{Topic}
use tosdata_bridge.Topics.Map.{topic_eq, text_eq}
use tosdata_bridge.Block.State.{remove_item, remove_topic}
use tosdata_bridge.Engine.Handling.{sig_remove}
use tosdata_bridge.Client.State.{TosdBlock, Outside, release_buffer}
use tosdata_bridge.Client.Remove.{
  Removal, release_streams, with_topic, with_item, append_streams, all_streams, drop_topic,
  drop_item,
}
use tosdata_bridge.Client.Holders.{holds, IsRead, same, holds-release, release-IsRead}
use tosdata_bridge.Client.Adding.{has_stream}

-- Whether a stream is in a list of streams.
abbrev pub listed : Topic → String → List (Topic × String) → Bool
listed u j [] = false
listed u j ((t, i) ∷ l) = same t i u j || listed u j l

and-or : (a b c : Bool) → ((a && b) || (a && c)) ≡ (a && (if b then true else c))
and-or true true c = refl
and-or true false c = refl
and-or false b c = refl

and-or_swap : (a b c : Bool) → ((a && b) || (b && c)) ≡ (b && (if a then true else c))
and-or_swap true true c = refl
and-or_swap false true c = refl
and-or_swap true false c = refl
and-or_swap false false c = refl

and-or_right : (a b c : Bool) → ((a && c) || (b && c)) ≡ ((if a then true else b) && c)
and-or_right true b true = refl
and-or_right true true false = refl
and-or_right true false false = refl
and-or_right false b c = refl

or_assoc : (a b c : Bool) → (a || (b || c)) ≡ ((a || b) || c)
or_assoc true b c = refl
or_assoc false b c = refl

pub listed-with_topic :
    (t u : Topic) (j : String) (items : List String)
    → listed u j (with_topic t items) ≡ (topic_eq.beq t u && contains j items)
listed-with_topic t u j [] = ground arith
listed-with_topic t u j (i ∷ items) =
    ap (λ x. same t i u j || x) (listed-with_topic t u j items)
    ∙ and-or (topic_eq.beq t u) (text_eq.beq i j) (contains j items)

pub listed-with_item :
    (i j : String) (u : Topic) (topics : List Topic)
    → listed u j (with_item i topics) ≡ (text_eq.beq i j && contains u topics)
listed-with_item i j u [] = ground arith
listed-with_item i j u (t ∷ topics) =
    ap (λ x. same t i u j || x) (listed-with_item i j u topics)
    ∙ and-or_swap (topic_eq.beq t u) (text_eq.beq i j) (contains u topics)

listed-append :
    (u : Topic) (j : String) (l m : List (Topic × String))
    → listed u j (append_streams l m) ≡ (listed u j l || listed u j m)
listed-append u j [] m = refl
listed-append u j ((t, i) ∷ l) m =
    ap (λ x. same t i u j || x) (listed-append u j l m)
    ∙ or_assoc (same t i u j) (listed u j l) (listed u j m)

pub listed-all_streams :
    (u : Topic) (j : String) (items : List String) (topics : List Topic)
    → listed u j (all_streams items topics) ≡ (contains j items && contains u topics)
listed-all_streams u j [] topics = refl
listed-all_streams u j (i ∷ items) topics =
    listed-append u j (with_item i topics) (all_streams items topics)
    ∙ ap₂ (λ x y. x || y) (listed-with_item i j u topics) (listed-all_streams u j items topics)
    ∙ and-or_right (text_eq.beq i j) (contains j items) (contains u topics)

gone-twice :
    (d h : Bool) → (if d then false else (if d then false else h)) ≡ (if d then false else h)
gone-twice true h = refl
gone-twice false h = refl

gone-step :
    (a b d h : Bool)
    → (if b && d then false else (if a && d then false else h))
      ≡ (if (a || b) && d then false else h)
gone-step true true d h = gone-twice d h
gone-step true false d h = refl
gone-step false true d h = refl
gone-step false false d h = refl

module _ {W : Type 0} (o : Outside W) (id : String) (timeout : ℕ) where
  pub holds-release_streams :
      (streams : List (Topic × String)) (p : Removal W) (k : String) (u : Topic) (j : String)
      → holds k u j (release_streams o id timeout streams p).buffers
        ≡ (if listed u j streams && text_eq.beq id k then false else holds k u j p.buffers)
  unfolding release_streams
  holds-release_streams [] p k u j = refl
  holds-release_streams ((t, i) ∷ streams) p k u j =
      let (r, w) = o.ask t i timeout sig_remove p.world in
      let q : Removal W = record {
        buffers = release_buffer t i id p.buffers;
        failures = if eqb_ℤ r (pos 0) then p.failures else suc p.failures;
        world = w;
      } in
      holds-release_streams streams q k u j
      ∙ ap (λ h. if listed u j streams && text_eq.beq id k then false else h)
          (holds-release t i id p.buffers k u j)
      ∙ gone-step (same t i u j) (listed u j streams) (text_eq.beq id k) (holds k u j p.buffers)

  pub release_streams-IsRead :
      (streams : List (Topic × String)) (p : Removal W)
      → Every IsRead p.buffers
      → Every IsRead (release_streams o id timeout streams p).buffers
  unfolding release_streams
  release_streams-IsRead [] p v = v
  release_streams-IsRead ((t, i) ∷ streams) p v =
      let (r, w) = o.ask t i timeout sig_remove p.world in
      release_streams-IsRead streams
        (record {
          buffers = release_buffer t i id p.buffers;
          failures = if eqb_ℤ r (pos 0) then p.failures else suc p.failures;
          world = w;
        })
        (release-IsRead t i id p.buffers v)

contains-some :
    {A : Type 0} → ⦃e : Eq A⦄ → (a : A) (s : List A) → contains a s ≡ true → is_nil s ≡ false
contains-some a [] h = cc
contains-some a (b ∷ s) h = refl

module _ {S : Type 0} (db : TosdBlock S) (u : Topic) (j : String) where
  topic-left :
      (t : Topic)
      → (remove_topic t db.block).1.item_names ≡ db.block.item_names
        × (contains u (remove_topic t db.block).1.topic_enums ≡ (
            if contains t db.block.topic_enums && topic_eq.beq t u
            then false
            else contains u db.block.topic_enums))
  unfolding remove_topic
  topic-left t = elim (Bool-cases (contains t db.block.topic_enums)) [
    | inl h ↦ rw h (refl, contains-remove t u db.block.topic_enums)
    | inr h ↦ rw h (refl, refl)
  ]

  drop_topic-block :
      (t : Topic)
      → is_nil (remove_topic t db.block).1.topic_enums ≡ false
      → (drop_topic t db).1.block ≡ (remove_topic t db.block).1
  unfolding drop_topic
  drop_topic-block t h = ground (arith, h)

  pub drop_topic-keeps :
      (t : Topic)
      → topic_eq.beq t u ≡ false
      → has_stream u j db ≡ true
      → has_stream u j (drop_topic t db).1 ≡ true
  drop_topic-keeps t e h =
      let (p, q) = topic-left t in
      let k : contains u (remove_topic t db.block).1.topic_enums ≡ true =
        q ∙ ground (arith, e, h) in
      let b = drop_topic-block t (contains-some u (remove_topic t db.block).1.topic_enums k) in
      ap (λ x. contains j x.item_names && contains u x.topic_enums) b
      ∙ ap (λ x. contains j x && contains u (remove_topic t db.block).1.topic_enums) p
      ∙ ground (arith, k, h)

  item-left :
      (i : String)
      → (contains i db.block.item_names ≡ true)
      → ((remove_item i db.block).1.topic_enums ≡ db.block.topic_enums)
        × (contains j (remove_item i db.block).1.item_names
            ≡ (if text_eq.beq i j then false else contains j db.block.item_names))
  unfolding remove_item
  item-left i h = elim (Option-cases (lookup i db.block.block)) [
    | inl g ↦ rw (h, g) (refl, contains-remove i j db.block.item_names)
    | inr (row, g) ↦ rw (h, g) (refl, contains-remove i j db.block.item_names)
  ]

  drop_item-block :
      (i : String)
      → is_nil (remove_item i db.block).1.item_names ≡ false
      → (drop_item i db).1.block ≡ (remove_item i db.block).1
  unfolding drop_item
  drop_item-block i h = ground (arith, h)

  pub drop_item-keeps :
      (i : String)
      → contains i db.block.item_names ≡ true
      → text_eq.beq i j ≡ false
      → has_stream u j db ≡ true
      → has_stream u j (drop_item i db).1 ≡ true
  drop_item-keeps i here e h =
      let (p, q) = item-left i here in
      let k : contains j (remove_item i db.block).1.item_names ≡ true = q ∙ ground (arith, e, h) in
      let b = drop_item-block i (contains-some j (remove_item i db.block).1.item_names k) in
      ap (λ x. contains j x.item_names && contains u x.topic_enums) b
      ∙ ap (λ x. contains j (remove_item i db.block).1.item_names && contains u x) p
      ∙ ground (arith, k, h)
