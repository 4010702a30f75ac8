-- ===== src/Client/Holders.antt =====
-- Which blocks a buffer is read for, after `_captureBuffer` and `_releaseBuffer`
-- (src/client/client_admin.cpp).
use Prim.Native.String.{String}
use tosdata_bridge.Prelude.{
  ◌≡◌, refl, sym, ap, ap₂, subst, ◌∙◌, Bool, true, false, ◌&&◌, Option, none, some, List, [], ◌∷◌,
  is_nil, arith, if◌then◌else◌, Option-cases, Bool-cases, inl, inr,
}
use tosdata_bridge.Prelude.Dict.{
  Eq, lookup, insert, erase, set_at, contains, remove, contains-remove, lookup-erase, lookup-insert,
  lookup-set_at, Every, Every-lookup, Every-erase, Every-insert, Every-set_at, Distinct,
  remove-Distinct,
}
use tosdata_bridge.Prelude.Table.{pair_eq}
use tosdata_bridge.Topics.Enum.{Topic}
use tosdata_bridge.Topics.Map.{topic_eq, text_eq}
use tosdata_bridge.Shared.State.{Reader, new_reader}
use tosdata_bridge.Client.State.{Buffers, add_name, capture_buffer, release_buffer}

-- Whether the buffer of a stream is read for a block.
abbrev pub read_for : String → Option (Reader × List String) → Bool
read_for id none = false
read_for id (some (r, ids)) = contains id ids

abbrev pub holds : String → Topic → String → Buffers → Bool
holds id t i bs = read_for id (lookup (t, i) bs)

-- A buffer is read for some block, and for none of them twice.
abbrev pub IsRead : (Topic × String) → (Reader × List String) → Type 0
IsRead key info = (is_nil info.1 ≡ false) × Distinct info.1

abbrev pub same : Topic → String → Topic → String → Bool
same t i u j = topic_eq.beq t u && text_eq.beq i j

pub contains-add_name :
    {A : Type 0}
    → ⦃e : Eq A⦄ → (a b : A) (s : List A)
    → contains b (add_name a s) ≡ (if e.beq a b then true else contains b s)
contains-add_name ⦃e⦄ a b s = elim (Bool-cases (e.beq a b)) [
  | inl h ↦
      let q : contains b s ≡ contains a s = ap (λ x. contains x s) (sym ((e.beq_iff a b).0 h)) in
      ground (arith, h, q)
  | inr h ↦ ground (arith, h)
]

same-lookup :
    (t : Topic) (i : String) (u : Topic) (j : String) (bs : Buffers)
    → same t i u j ≡ true
    → lookup (u, j) bs ≡ lookup (t, i) bs
same-lookup t i u j bs h =
    ap₂ (λ (v : Topic) (k : String). lookup (v, k) bs)
      (sym ((topic_eq.beq_iff t u).0 (ground (arith, h))))
      (sym ((text_eq.beq_iff i j).0 (ground (arith, h))))

read-set :
    (b d : Bool) (k : String) (r : Reader) (ids more : List String)
    (o : Option (Reader × List String))
    → (b ≡ true → o ≡ some (r, ids))
    → contains k more ≡ (if d then true else contains k ids)
    → read_for k (if b then some (r, more) else o) ≡ (if b && d then true else read_for k o)
read-set true d k r ids more o h g = g ∙ ap (λ x. if d then true else read_for k x) (sym (h refl))
read-set false d k r ids more o h g = refl

read-unset :
    (b d : Bool) (k : String) (r : Reader) (ids less : List String)
    (o : Option (Reader × List String))
    → (b ≡ true → o ≡ some (r, ids))
    → contains k less ≡ (if d then false else contains k ids)
    → read_for k (if b then some (r, less) else o) ≡ (if b && d then false else read_for k o)
read-unset true d k r ids less o h g =
    g ∙ ap (λ x. if d then false else read_for k x) (sym (h refl))
read-unset false d k r ids less o h g = refl

add_name-some : (id : String) (ids : List String) → is_nil (add_name id ids) ≡ false
add_name-some id [] = refl
add_name-some id (j ∷ ids) = ground arith

add_name-Distinct : (id : String) (ids : List String) → Distinct ids → Distinct (add_name id ids)
add_name-Distinct id ids d = elim (Bool-cases (contains id ids)) [
  | inl h ↦ rw h d
  | inr h ↦ rw h (h, d)
]

contains-nil : (k : String) (ids : List String) → is_nil ids ≡ true → contains k ids ≡ false
contains-nil k [] h = refl
contains-nil k (j ∷ ids) h = cc

read-new :
    (b d : Bool) (k : String) (r : Reader) (more : List String) (o : Option (Reader × List String))
    → (b ≡ true → o ≡ none)
    → contains k more ≡ (if d then true else false)
    → read_for k (if b then some (r, more) else o) ≡ (if b && d then true else read_for k o)
read-new true d k r more o h g = g ∙ ap (λ x. if d then true else read_for k x) (sym (h refl))
read-new false d k r more o h g = refl

unread :
    (b d : Bool) (k : String) (o : Option (Reader × List String))
    → (b ≡ true → o ≡ none)
    → read_for k o ≡ (if b && d then false else read_for k o)
unread true true k o h = ap (read_for k) (h refl)
unread true false k o h = refl
unread false d k o h = refl

read-gone :
    (b d : Bool) (k : String) (o : Option (Reader × List String))
    → (b ≡ true → (if d then false else read_for k o) ≡ false)
    → read_for k (if b then none else o) ≡ (if b && d then false else read_for k o)
read-gone true d k o h = sym (h refl)
read-gone false d k o h = refl

module _ (t : Topic) (i : String) (id : String) where
  release_absent : (bs : Buffers) → lookup (t, i) bs ≡ none → release_buffer t i id bs ≡ bs
  unfolding release_buffer
  release_absent bs g = ground (arith, g)

  release_last :
      (bs : Buffers) (r : Reader) (ids : List String)
      → lookup (t, i) bs ≡ some (r, ids)
      → is_nil (remove id ids) ≡ true
      → release_buffer t i id bs ≡ erase (t, i) bs
  unfolding release_buffer
  release_last bs r ids g n = ground (arith, g, n)

  release_one :
      (bs : Buffers) (r : Reader) (ids : List String)
      → lookup (t, i) bs ≡ some (r, ids)
      → is_nil (remove id ids) ≡ false
      → release_buffer t i id bs ≡ set_at (t, i) (r, remove id ids) bs
  unfolding release_buffer
  release_one bs r ids g n = ground (arith, g, n)

  pub holds-capture :
      (opened : Bool) (bs bs1 : Buffers)
      → capture_buffer t i id opened bs ≡ some bs1
      → (k : String) (u : Topic) (j : String)
      → holds k u j bs1 ≡ (if same t i u j && text_eq.beq id k then true else holds k u j bs)
  unfolding capture_buffer
  holds-capture opened bs bs1 h k u j = elim (Option-cases (lookup (t, i) bs)) [
    | inl g ↦
        let q : bs1 ≡ insert (t, i) (new_reader, id ∷ []) bs = ground (arith, h, g) in
        ap (λ m. holds k u j m) q
        ∙ ap (read_for k) (lookup-insert (t, i) (u, j) (new_reader, id ∷ []) bs g)
        ∙ read-new (same t i u j) (text_eq.beq id k) k new_reader (id ∷ []) (lookup (u, j) bs)
            (λ e. same-lookup t i u j bs e ∙ g) refl
    | inr ((r, ids), g) ↦
        let q : bs1 ≡ set_at (t, i) (r, add_name id ids) bs = ground (arith, h, g) in
        ap (λ m. holds k u j m) q
        ∙ ap (read_for k) (lookup-set_at (t, i) (u, j) (r, add_name id ids) bs ∙ ground (arith, g))
        ∙ read-set (same t i u j) (text_eq.beq id k) k r ids (add_name id ids) (lookup (u, j) bs)
            (λ e. same-lookup t i u j bs e ∙ g) (contains-add_name id k ids)
  ]

  pub holds-release :
      (bs : Buffers) (k : String) (u : Topic) (j : String)
      → holds k u j (release_buffer t i id bs)
        ≡ (if same t i u j && text_eq.beq id k then false else holds k u j bs)
  holds-release bs k u j = elim (Option-cases (lookup (t, i) bs)) [
    | inl g ↦
        ap (λ m. holds k u j m) (release_absent bs g)
        ∙ unread (same t i u j) (text_eq.beq id k) k (lookup (u, j) bs)
            (λ e. same-lookup t i u j bs e ∙ g)
    | inr ((r, ids), g) ↦ elim (Bool-cases (is_nil (remove id ids))) [
      | inl n ↦
          ap (λ m. holds k u j m) (release_last bs r ids g n)
          ∙ ap (read_for k) (lookup-erase (t, i) (u, j) bs)
          ∙ read-gone (same t i u j) (text_eq.beq id k) k (lookup (u, j) bs) (λ e.
            ap (λ o. if text_eq.beq id k then false else read_for k o)
              (same-lookup t i u j bs e ∙ g)
            ∙ sym (contains-remove id k ids)
            ∙ contains-nil k (remove id ids) n)
      | inr n ↦
          ap (λ m. holds k u j m) (release_one bs r ids g n)
          ∙ ap (read_for k) (lookup-set_at (t, i) (u, j) (r, remove id ids) bs ∙ ground (arith, g))
          ∙ read-unset (same t i u j) (text_eq.beq id k) k r ids (remove id ids) (lookup (u, j) bs)
              (λ e. same-lookup t i u j bs e ∙ g) (contains-remove id k ids)
    ]
  ]

  pub capture-IsRead :
      (opened : Bool) (bs bs1 : Buffers)
      → capture_buffer t i id opened bs ≡ some bs1
      → Every IsRead bs
      → Every IsRead bs1
  unfolding capture_buffer
  capture-IsRead opened bs bs1 h v = elim (Option-cases (lookup (t, i) bs)) [
    | inl g ↦
        let q : bs1 ≡ insert (t, i) (new_reader, id ∷ []) bs = ground (arith, h, g) in
        subst (Every IsRead) (sym q)
          (Every-insert IsRead (t, i) (new_reader, id ∷ []) bs (refl, (refl, tt)) v)
    | inr ((r, ids), g) ↦
        let q : bs1 ≡ set_at (t, i) (r, add_name id ids) bs = ground (arith, h, g) in
        subst (Every IsRead) (sym q) (
          Every-set_at IsRead (t, i) (r, add_name id ids) bs
            (
              add_name-some id ids,
              add_name-Distinct id ids (Every-lookup IsRead (t, i) (r, ids) bs v g).1,
            )
            v)
  ]

  pub release-IsRead : (bs : Buffers) → Every IsRead bs → Every IsRead (release_buffer t i id bs)
  release-IsRead bs v = elim (Option-cases (lookup (t, i) bs)) [
    | inl g ↦ subst (Every IsRead) (sym (release_absent bs g)) v
    | inr ((r, ids), g) ↦ elim (Bool-cases (is_nil (remove id ids))) [
      | inl n ↦
          subst (Every IsRead) (sym (release_last bs r ids g n)) (Every-erase IsRead (t, i) bs v)
      | inr n ↦ subst (Every IsRead) (sym (release_one bs r ids g n)) (
          Every-set_at IsRead (t, i) (r, remove id ids) bs
            (n, remove-Distinct id ids (Every-lookup IsRead (t, i) (r, ids) bs v g).1) v)
    ]
  ]
