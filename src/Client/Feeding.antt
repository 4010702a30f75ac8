-- ===== src/Client/Feeding.antt =====
-- What the thread that reads the buffers (src/client/client_admin.cpp) does to the streams of the blocks
-- that an element is inserted into.
use Prim.Native.String.{String}
use tosdata_bridge.Prelude.{
  ℕ, ◌+◌, ◌≡◌, refl, sym, ap, ◌∙◌, Bool, true, false, ◌&&◌, Option, none, some, List, [], ◌∷◌,
  length, arith, if◌then◌else◌, Option-cases, Bool-cases, inl, inr,
}
use tosdata_bridge.Prelude.Action.{ok}
use tosdata_bridge.Prelude.Dict.{Eq, lookup, set_at, contains, Distinct, beq_refl, lookup-set_at}
use tosdata_bridge.Topics.Enum.{Topic}
use tosdata_bridge.Topics.Map.{topic_eq, text_eq}
use tosdata_bridge.Block.Interface.{StreamClass}
use tosdata_bridge.Block.State.{wrap_push, insert_data}
use tosdata_bridge.Block.Insert.{stream_at, insert_data-stream_at}
use tosdata_bridge.Client.State.{TosdBlock}
use tosdata_bridge.Client.Extract.{Blocks, insert_into}

-- The stream of an item and a topic in the block of a name.
abbrev pub stream_in : {S : Type 0} → String → String → Topic → Blocks S → Option S
stream_in id j u blocks = elim (lookup id blocks) [ none ↦ none | some db ↦ stream_at j u db.block ]

-- A stream, if there is one, after a change.
abbrev pub changed : {S : Type 0} → (S → S) → Option S → Option S
changed f none = none
changed f (some p) = some (f p)

lookup_put :
    {K V S : Type 0}
    → ⦃ek : Eq K⦄ → (at : V → Option S) (k k' : K) (v w : V) (m : List (K × V))
    → lookup k m ≡ some v
    → (hit : Bool) (q : S) → at w ≡ (if hit then some q else at v)
    → elim (lookup k' (set_at k w m)) [ none ↦ none | some x ↦ at x ]
      ≡ (if ek.beq k k' && hit then some q else elim (lookup k' m) [ none ↦ none | some x ↦ at x ])
lookup_put ⦃ek⦄ at k k' v w m h hit q g =
    ground (arith, h, g, lookup-set_at k k' w m, ek.beq_iff k k')

-- A name that is in a list is another than one that is not.
other_name :
    {K : Type 0}
    → ⦃ek : Eq K⦄ → (k j : K) (ks : List K) → contains k ks ≡ false
    → contains j ks ≡ true
    → ek.beq k j ≡ false
other_name ⦃ek⦄ k j ks h g = elim (Bool-cases (ek.beq k j)) [
  | inl e ↦
      let p : contains k ks ≡ contains j ks = ap (λ x. contains x ks) ((ek.beq_iff k j).0 e) in
      absurd (ground (arith, h, g, p))
  | inr e ↦ e
]

-- A stream after the push of an element, and of some, where the number that is left goes down to 1.
module _ {E V G D S : Type 0} (c : StreamClass E V G D S) where
  abbrev pub pushed : Bool → V × D → S → S
  pushed got x p = (c.push got x.0 x.1 p).1

  abbrev pub pushes : (ℕ → Bool) → List (V × D) → S → S
  pushes got [] p = p
  pushes got (x ∷ xs) p = pushes got xs (pushed (got (length xs + 1)) x p)

-- The first of some names, and the others.
through_names :
    {S : Type 0} (first others : Bool) (f : S → S) (q : S) (o n z : Option S)
    → (first ≡ true → (others ≡ false) × (changed f o ≡ some q))
    → n ≡ (if first then some q else o)
    → z ≡ (if others then changed f n else n)
    → z ≡ (if (if first then true else others) then changed f o else o)
through_names true others f q o n z h g e = let (a, b) = h refl in ground (arith, e, g, a, b)
through_names false others f q o n z h g e = ground (arith, e, g)

module _ {E V G D S : Type 0} (c : StreamClass E V G D S) (t : Topic) (i : String)
    (Good : S → Type 0) (Fit : V × D → Type 0)
    (takes : (got : Bool) (x : V × D) (p : S)
      → Fit x
      → Good p
      → ((c.push got x.0 x.1 p).0 ≡ ok tt) × Good (c.push got x.0 x.1 p).1) where
  -- Each of these blocks has the stream, and it takes elements.
  abbrev pub Fed : List String → Blocks S → Type 0
  Fed ids blocks =
      (id : String) → contains id ids ≡ true → (p : S) × (stream_in id i t blocks ≡ some p) × Good p

  -- The first of the blocks.
  insert_first :
      (got : String → Bool) (x : V × D) (id : String) (ids : List String) (blocks : Blocks S)
      (p : S)
      → stream_in id i t blocks ≡ some p
      → Fit x
      → Good p
      → (next : Blocks S) × (insert_into c got t i x (id ∷ ids) blocks
          ≡ insert_into c got t i x ids next)
        × ((k j : String) (u : Topic)
            → stream_in k j u next ≡ (
                if text_eq.beq id k && (text_eq.beq i j && topic_eq.beq t u)
                then some (c.push (got id) x.0 x.1 p).1
                else stream_in k j u blocks))
  unfolding insert_into wrap_push
  insert_first got x id ids blocks p h fit good = elim (Option-cases (lookup id blocks)) [
    | inl g ↦ absurd (ground (arith, h, g))
    | inr (db, g) ↦
        let at : stream_at i t db.block ≡ some p = ground (arith, h, g) in
        let f = insert_data-stream_at c (got id) t i x.0 x.1 db.block in
        let r : (insert_data c (got id) t i x.0 x.1 db.block).0 ≡ ok tt =
          f.0 ∙ rw (at, (takes (got id) x p fit good).0) refl in
        let w : TosdBlock S = record db {
          block = (insert_data c (got id) t i x.0 x.1 db.block).1;
        } in
        (
          set_at id w blocks,
          rw (insert_into, g, r) refl,
          λ k j u.
              lookup_put (λ (b : TosdBlock S). stream_at j u b.block) id k db w blocks g
                (text_eq.beq i j && topic_eq.beq t u) (c.push (got id) x.0 x.1 p).1
                (f.1 j u ∙ rw at refl),
        )
  ]

  -- What an element does to the stream of a block in the list, and to all others.
  pub insert_into-stream_in :
      (got : String → Bool) (x : V × D) (ids : List String) (blocks : Blocks S)
      → Fit x
      → Distinct ids
      → Fed ids blocks
      → ((insert_into c got t i x ids blocks).0 ≡ ok tt)
        × ((k : String)
            → stream_in k i t (insert_into c got t i x ids blocks).1 ≡ (
                if contains k ids
                then changed (pushed c (got k) x) (stream_in k i t blocks)
                else stream_in k i t blocks))
        × ((k j : String) (u : Topic)
            → (text_eq.beq i j && topic_eq.beq t u) ≡ false
            → stream_in k j u (insert_into c got t i x ids blocks).1 ≡ stream_in k j u blocks)
  unfolding insert_into
  insert_into-stream_in got x [] blocks fit d fed = (refl, λ k. refl, λ k j u h. refl)
  insert_into-stream_in got x (id ∷ ids) blocks fit d fed =
      let (p, at, good) = fed id (rw (beq_refl id) refl) in
      let (next, e, f) = insert_first got x id ids blocks p at fit good in
      let here : (k : String)
          → stream_in k i t next
            ≡ (if text_eq.beq id k then some (pushed c (got id) x p) else stream_in k i t blocks) =
        λ k. f k i t ∙ ground (arith, beq_refl i, beq_refl t) in
      let still : Fed ids next = λ k h.
        let (q, g, v) = fed k (ground (arith, h)) in
        (q, here k ∙ ground (arith, other_name id k ids d.0 h) ∙ g, v) in
      let (r, same, others) = insert_into-stream_in got x ids next fit d.1 still in
      (
        ap (λ z. z.0) e ∙ r,
        λ k.
            ap (λ z. stream_in k i t z.1) e
            ∙ through_names (text_eq.beq id k) (contains k ids) (pushed c (got k) x)
                (pushed c (got id) x p) (stream_in k i t blocks) (stream_in k i t next)
                (stream_in k i t (insert_into c got t i x ids next).1)
                (λ h.
                  let w = (text_eq.beq_iff id k).0 h in
                  (
                    ap (λ z. contains z ids) (sym w) ∙ d.0,
                    ap (λ z. changed (pushed c (got z) x) (stream_in z i t blocks)) (sym w)
                        ∙ ap (changed (pushed c (got id) x)) at,
                  ))
                (here k) (same k),
        λ k j u h. ap (λ z. stream_in k j u z.1) e ∙ others k j u h ∙ f k j u ∙ ground (arith, h),
      )
