-- ===== src/Client/Complete.antt =====
-- `TOSDB_Add` (src/client/client_admin.cpp) where it returns 0.
use Prim.Native.String.{String}
use mathlib.Core.Bool.{false≢true}
use tosdata_bridge.Prelude.{
  ℕ, ◌≡◌, refl, sym, ap, ap₂, ◌∙◌, Bool, true, false, not, ◌&&◌, ◌||◌, some, List, [], ◌∷◌, is_nil,
  arith, if◌then◌else◌, Bool-cases, inl, inr,
}
use tosdata_bridge.Prelude.Int.{ℤ, pos, eqb_ℤ}
use tosdata_bridge.Prelude.Action.{Result, ok, err}
use tosdata_bridge.Prelude.Dict.{Eq, lookup, contains}
use tosdata_bridge.Topics.Enum.{Topic}
use tosdata_bridge.Topics.Map.{topic_eq, text_eq}
use tosdata_bridge.Block.Interface.{StreamClass}
use tosdata_bridge.Client.State.{
  TosdBlock, Client, ClientError, buffer_error, Outside, set_union, set_difference, code_of,
}
use tosdata_bridge.Client.Add.{
  Progress, real_topics, valid_items, add_new_topics, add_new_items, take_both, take_item,
  precache_items, add_to_block, tosdb_add,
}
use tosdata_bridge.Client.Holders.{holds, contains-add_name}
use tosdata_bridge.Client.Adding.{has_stream}
use tosdata_bridge.Client.Granting.{
  Granted, Granted-if, square, add_new_items-Granted, add_new_topics-Granted,
}

module _ {A : Type 0} ⦃e : Eq A⦄ where
  contains-set_union :
      (a : A) (l s : List A) → contains a (set_union l s) ≡ (contains a l || contains a s)
  contains-set_union a [] s = refl
  contains-set_union a (b ∷ l) s =
      contains-add_name b a (set_union l s) ∙ ground (arith, contains-set_union a l s)

  contains-set_difference :
      (a : A) (l s : List A)
      → contains a (set_difference l s) ≡ (contains a l && not (contains a s))
  contains-set_difference a [] s = refl
  contains-set_difference a (b ∷ l) s = elim (Bool-cases (e.beq b a)) [
    | inl h ↦
        let q : contains b s ≡ contains a s = ap (λ x. contains x s) ((e.beq_iff b a).0 h) in
        ground (arith, contains-set_difference a l s, h, q)
    | inr h ↦ ground (arith, contains-set_difference a l s, h)
  ]

-- A stream of names that are asked for, or in the block, is asked for or in the block.
asked-or_had :
    (u u' j j' : Bool)
    → (u || u') ≡ true
    → (j || j') ≡ true
    → (((u && not u') && (j || j')) || (u' && (j && not j'))) ≡ not (j' && u')
asked-or_had true true true true h k = refl
asked-or_had true true true false h k = refl
asked-or_had true true false true h k = refl
asked-or_had true true false false h k = absurd (false≢true k)
asked-or_had true false true true h k = refl
asked-or_had true false true false h k = refl
asked-or_had true false false true h k = refl
asked-or_had true false false false h k = absurd (false≢true k)
asked-or_had false true true true h k = refl
asked-or_had false true true false h k = refl
asked-or_had false true false true h k = refl
asked-or_had false true false false h k = absurd (false≢true k)
asked-or_had false false j j' h k = absurd (false≢true h)

-- Whether a call returned 0.
abbrev is_success : Result ClientError ℤ → Bool
is_success (ok z) = eqb_ℤ z (pos 0)
is_success (err e) = false

success-good :
    (b : Bool) (n : ℕ)
    → is_success (if b then ok (code_of n) else err buffer_error) ≡ true
    → (b ≡ true) × (n ≡ 0)
success-good true n h = (refl, ground (arith, h))
success-good false n h = absurd (false≢true h)

module _ {E V G D S W : Type 0} (c : StreamClass E V G D S) (element_of : Topic → E) (o : Outside W)
    (id : String) where
  first-Granted :
      (items all : List String) (ts : List Topic) (p : Progress S W) (b : Bool)
      → Granted o id (square ts all) p (
          if not (is_nil ts)
          then add_new_topics o id (take_both c element_of o) ts all p
          else if b
          then (true, record p { db = precache_items c element_of o items p.db })
          else (true, p))
  first-Granted items all [] p true = record {
    kept = λ u j g. g;
    counted = omega arith;
    read = λ e f u j g. absurd (ground (arith, g));
  }
  first-Granted items all [] p false = record {
    kept = λ u j g. g;
    counted = omega arith;
    read = λ e f u j g. absurd (ground (arith, g));
  }
  first-Granted items all (t ∷ ts) p b =
      add_new_topics-Granted o id (take_both c element_of o) (t ∷ ts) all p

  abbrev asked : List String → List Topic → TosdBlock S → Topic → String → Bool
  asked items topics db u j =
      let old_topics = db.block.topic_enums in
      let old_items = db.block.item_names in
      let tot_items = set_union items db.item_precache in
      let tdiff = set_difference (set_union topics db.topic_precache) old_topics in
      square tdiff (set_union tot_items old_items) u j
      || square old_topics (set_difference tot_items old_items) u j

  add_to_block-Granted :
      (items : List String) (topics : List Topic) (p : Progress S W)
      → Granted o id (asked items topics p.db) p (add_to_block c element_of o id items topics p)
  unfolding add_to_block
  add_to_block-Granted items topics p =
      let old_topics = p.db.block.topic_enums in
      let old_items = p.db.block.item_names in
      let tot_items = set_union items p.db.item_precache in
      let tdiff = set_difference (set_union topics p.db.topic_precache) old_topics in
      let idiff = set_difference tot_items old_items in
      let all = set_union tot_items old_items in
      let r : Bool × Progress S W =
        if not (is_nil tdiff)
        then add_new_topics o id (take_both c element_of o) tdiff all p
        else if is_nil old_topics
        then (true, record p { db = precache_items c element_of o items p.db })
        else (true, p) in
      Granted-if o id (square tdiff all) (square old_topics idiff) (asked items topics p.db) p r.1
        r.0 (add_new_items o id (take_item c element_of o) old_topics idiff r.1) (λ u j. refl)
        (first-Granted items all tdiff p (is_nil old_topics))
        (add_new_items-Granted o id (take_item c element_of o) old_topics idiff r.1)

  asked-all :
      (items : List String) (topics : List Topic) (db : TosdBlock S) (u : Topic) (j : String)
      → contains u (set_union (set_union topics db.topic_precache) db.block.topic_enums) ≡ true
      → contains j (set_union (set_union items db.item_precache) db.block.item_names) ≡ true
      → asked items topics db u j ≡ not (has_stream u j db)
  asked-all items topics db u j h k =
      let old_topics = db.block.topic_enums in
      let old_items = db.block.item_names in
      let tot_items = set_union items db.item_precache in
      let tot_topics = set_union topics db.topic_precache in
      let p = contains-set_union u tot_topics old_topics in
      let q = contains-set_union j tot_items old_items in
      ap₂
        (λ x y.
          x && y || (contains u old_topics && contains j (set_difference tot_items old_items)))
        (contains-set_difference u tot_topics old_topics) q
      ∙ ap
          (λ x.
            contains u tot_topics
              && not (contains u old_topics)
              && (contains j tot_items || contains j old_items)
            || (contains u old_topics && x))
          (contains-set_difference j tot_items old_items)
      ∙ asked-or_had (contains u tot_topics) (contains u old_topics) (contains j tot_items)
          (contains j old_items) (sym p ∙ h) (sym q ∙ k)

  module _ (connected : Bool) (items : List String) (topics : List Topic) (s : Client S) (w : W)
      (db : TosdBlock S) (g : lookup id s.dde_blocks ≡ some db) where
    abbrev begun : Progress S W
    begun = record { db = db; buffers = s.buffers; failures = 0; world = w }

    abbrev ended : Bool × Progress S W
    ended = add_to_block c element_of o id (valid_items items) (real_topics topics) begun

    -- A call that returns 0 went through all of its requests.
    went_through :
        let r = tosdb_add c element_of o connected id items topics s w in
        is_success r.0 ≡ true
        → (is_success (if ended.0 then ok (code_of ended.1.failures) else err buffer_error) ≡ true)
          × (r.1.0.buffers ≡ ended.1.buffers)
    unfolding tosdb_add
    went_through z = elim (Bool-cases connected) [
      | inl d ↦ elim (Bool-cases (is_nil (valid_items items) && is_nil (real_topics topics))) [
        | inl e ↦ absurd (false≢true (ground (arith, d, e, z)))
        | inr e ↦ (ground (arith, d, e, g, z), ground (arith, d, e, g))
      ]
      | inr d ↦ absurd (false≢true (ground (arith, d, z)))
    ]

    -- Let all streams of a block be read, and `TOSDB_Add` return 0. Then each stream is read for
    -- the block whose topic is asked for, pre-cached or in the block, and whose item is so too; an
    -- item that is not valid and the null topic do not count.
    pub tosdb_add-holds :
        ((u : Topic) (j : String) → has_stream u j db ≡ true → holds id u j s.buffers ≡ true)
        → let r = tosdb_add c element_of o connected id items topics s w in
          r.0 ≡ ok (pos 0)
          → (u : Topic) (j : String)
          → contains u
              (set_union (set_union (real_topics topics) db.topic_precache) db.block.topic_enums)
            ≡ true
          → contains j
              (set_union (set_union (valid_items items) db.item_precache) db.block.item_names)
            ≡ true
          → holds id u j r.1.0.buffers ≡ true
    tosdb_add-holds full z u j h k =
        let v = add_to_block-Granted (valid_items items) (real_topics topics) begun in
        let (x, y) = went_through (ap is_success z) in
        let (good, clean) = success-good ended.0 ended.1.failures x in
        ap (λ m. holds id u j m) y ∙ elim (Bool-cases (has_stream u j db)) [
          | inl a ↦ v.kept u j (full u j a)
          | inr a ↦
              v.read good clean u j
                (asked-all (valid_items items) (real_topics topics) db u j h k ∙ ground (arith, a))
        ]
