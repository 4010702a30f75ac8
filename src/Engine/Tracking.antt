-- ===== src/Engine/Tracking.antt =====
-- Counting a stream up and down, as a map from topics and items to counts.
use Prim.Native.String.{String}
use tosdata_bridge.Prelude.{
  ℕ, ◌≡◌, refl, sym, ap, subst, ◌∙◌, Bool, true, ◌&&◌, Option, none, some, List, [], ◌∷◌, is_nil,
  arith, ◌==◌, if◌then◌else◌, Bool-cases, inl, inr,
}
use tosdata_bridge.Prelude.Dict.{lookup, erase, lookup-erase}
use tosdata_bridge.Prelude.Table.{put, lookup-put}
use tosdata_bridge.Topics.Enum.{Topic}
use tosdata_bridge.Topics.Map.{topic_eq, text_eq}
use tosdata_bridge.Engine.State.{ItemRefcounts}
use tosdata_bridge.Engine.Streams.{items_of, incr, decr}
use tosdata_bridge.Engine.Counts.{held, raise, lower}

-- The items of a topic after a change of those of another, or its own.
items_of-put_if :
    (t u : Topic) (items : ItemRefcounts) (m : List (Topic × ItemRefcounts))
    → items_of u (put t items m) ≡ (if topic_eq.beq t u then items else items_of u m)
items_of-put_if t u items m = ground (arith, lookup-put t u items m)

items_of-erase_if :
    (t u : Topic) (m : List (Topic × ItemRefcounts))
    → items_of u (erase t m) ≡ (if topic_eq.beq t u then [] else items_of u m)
items_of-erase_if t u m = ground (arith, lookup-erase t u m)

lookup-if :
    (t u : Topic) (j : String) (items : ItemRefcounts) (m : List (Topic × ItemRefcounts))
    (o : Option ℕ) (b : Bool)
    → lookup j items ≡ (if b then o else lookup j (items_of t m))
    → lookup j (if topic_eq.beq t u then items else items_of u m)
      ≡ (if b && topic_eq.beq t u then o else lookup j (items_of u m))
lookup-if t u j items m o b h = elim (Bool-cases (topic_eq.beq t u)) [
  | inl e ↦
      let q : t ≡ u = (topic_eq.beq_iff t u).0 e in
      let h' = subst (λ v. lookup j items ≡ (if b then o else lookup j (items_of v m))) q h in
      rw e (ground (arith, h'))
  | inr e ↦ rw e (ground arith)
]

lookup-nil : (j : String) (items : ItemRefcounts) → is_nil items ≡ true → lookup j items ≡ none
lookup-nil j [] h = refl
lookup-nil j (p ∷ items) h = cc

module _ (t : Topic) (i : String) (u : Topic) (j : String) (m : List (Topic × ItemRefcounts)) where
  abbrev here : Bool
  here = text_eq.beq i j && topic_eq.beq t u

  lookup-set :
      (n : ℕ)
      → lookup j (items_of u (put t (put i n (items_of t m)) m))
        ≡ (if here then some n else lookup j (items_of u m))
  lookup-set n =
      ap (lookup j) (items_of-put_if t u (put i n (items_of t m)) m)
      ∙ lookup-if t u j (put i n (items_of t m)) m (some n) (text_eq.beq i j)
          (lookup-put i j n (items_of t m))

  lookup-unset :
      lookup j (items_of u (put t (erase i (items_of t m)) m))
      ≡ (if here then none else lookup j (items_of u m))
  lookup-unset =
      ap (lookup j) (items_of-put_if t u (erase i (items_of t m)) m)
      ∙ lookup-if t u j (erase i (items_of t m)) m none (text_eq.beq i j)
          (lookup-erase i j (items_of t m))

  lookup-close :
      is_nil (erase i (items_of t m)) ≡ true
      → lookup j (items_of u (erase t m)) ≡ (if here then none else lookup j (items_of u m))
  lookup-close e =
      ap (lookup j) (items_of-erase_if t u m)
      ∙ lookup-if t u j [] m none (text_eq.beq i j)
          (sym (lookup-nil j (erase i (items_of t m)) e) ∙ lookup-erase i j (items_of t m))

  pub lookup-raise :
      lookup j (items_of u (raise t i m))
      ≡ (if here then some (incr (held i (items_of t m))) else lookup j (items_of u m))
  lookup-raise = lookup-set (incr (held i (items_of t m)))

  pub lookup-lower : lookup j (items_of u (lower t i m)) ≡ (
      if here
      then (if decr (held i (items_of t m)) == 0 then none else some (decr (held i (items_of t m))))
      else lookup j (items_of u m))
  lookup-lower = elim (Bool-cases (decr (held i (items_of t m)) == 0)) [
    | inl d ↦ elim (Bool-cases (is_nil (erase i (items_of t m)))) [
      | inl e ↦ rw (d, e) (lookup-close e)
      | inr e ↦ rw (d, e) lookup-unset
    ]
    | inr d ↦ rw d (lookup-set (decr (held i (items_of t m))))
  ]
