-- ===== src/Getters/Untouched.antt =====
-- What the reads of one stream (src/client/client_get.cpp) leave as it was: the blocks stay valid, and
-- every stream keeps its values.
use Prim.Native.String.{String}
use tosdata_bridge.Prelude.{
  ◌≡◌, refl, sym, ap, subst, ◌∙◌, Bool, true, ◌&&◌, Option, none, some, arith, Option-cases,
  Bool-cases, inl, inr, if◌then◌else◌,
}
use tosdata_bridge.Prelude.Int.{ℤ}
use tosdata_bridge.Prelude.Action.{Action}
use tosdata_bridge.Prelude.Dict.{
  Eq, lookup, set_at, lookup-set_at, Every, Every-lookup, Every-set_at,
}
use tosdata_bridge.Topics.Enum.{Topic}
use tosdata_bridge.Topics.Map.{topic_eq, text_eq}
use tosdata_bridge.Stream.State.{StreamError, clamp_bound}
use tosdata_bridge.Block.Interface.{StreamClass, StreamLaws}
use tosdata_bridge.Block.State.{Block}
use tosdata_bridge.Block.Rows.{IsStream, set_at-IsRow}
use tosdata_bridge.Block.Invariant.{IsValid, RowOf}
use tosdata_bridge.Block.Insert.{stream_at}
use tosdata_bridge.Client.State.{TosdBlock, Client}
use tosdata_bridge.Getters.Interface.{Same, IsRead}
use tosdata_bridge.Getters.State.{write_stream, with_stream}
use tosdata_bridge.Getters.Single.{
  client_stream, with_stream-missing, with_stream-none, with_stream-some, with_stream-client_stream,
}

-- What a read of one stream of many finds, if there is the stream.
abbrev pub seen : {S Y : Type 0} → (S → Y) → Option S → Option Y
seen g none = none
seen g (some p) = some (g p)

seen-same :
    {S Y : Type 0} (cond : Bool) (x y z : Option S) (f : S → S) (g : S → Y)
    → (cond ≡ true → x ≡ y)
    → ((p : S) → x ≡ some p → g (f p) ≡ g p)
    → z ≡ (if cond then elim x [ none ↦ none | some p ↦ some (f p) ] else y)
    → seen g z ≡ seen g y
seen-same cond x y z f g same keeps e = elim (Bool-cases cond) [
  | inr h ↦ let w : z ≡ y = ground (arith, h, e) in ap (seen g) w
  | inl h ↦ elim (Option-cases x) [
    | inl k ↦ let w : z ≡ y = ground (arith, h, e, k, same h) in ap (seen g) w
    | inr (p, k) ↦
        let w : z ≡ some (f p) = ground (arith, h, e, k) in
        ap (seen g) w ∙ ap some (keeps p k) ∙ ap (seen g) (sym k ∙ same h)
  ]
]

module _ {K I T W : Type 0} ⦃ek : Eq K⦄ ⦃ei : Eq I⦄ ⦃et : Eq T⦄ (f : K → I → T → W) where
  keys-same :
      (k k' : K) (i j : I) (t u : T)
      → (ek.beq k k' && (ei.beq i j && et.beq t u)) ≡ true
      → f k i t ≡ f k' j u
  keys-same k k' i j t u h = ground (arith, h, ek.beq_iff k k', ei.beq_iff i j, et.beq_iff t u)

module _ {E V G D I T S : Type 0} ⦃ei : Eq I⦄ ⦃et : Eq T⦄ {c : StreamClass E V G D S}
    (laws : StreamLaws c) (element_of : T → E) (i : I) (t : T) (p : S) (b : Block I T S)
    (v : IsValid laws element_of b) (found : stream_at i t b ≡ some p) where
  pub stream_at-IsStream : IsStream laws element_of b.datetime (clamp_bound b.block_sz) t p
  stream_at-IsStream = elim (Option-cases (lookup i b.block)) [
    | inl g ↦ absurd (ground (arith, found, g))
    | inr (row, g) ↦
        let r = Every-lookup (RowOf laws element_of b) i row b.block v.rows g in
        Every-lookup (IsStream laws element_of b.datetime (clamp_bound b.block_sz)) t p row
          r.streams (ground (arith, found, g))
  ]

  write_stream-IsValid : (q : S) → Same laws p q → IsValid laws element_of (write_stream i t q b)
  unfolding write_stream
  write_stream-IsValid q s = elim (Option-cases (lookup i b.block)) [
    | inl g ↦ absurd (ground (arith, found, g))
    | inr (row, g) ↦
        let r = Every-lookup (RowOf laws element_of b) i row b.block v.rows g in
        let x = set_at t q row in
        let w = stream_at-IsStream in
        let y =
          set_at-IsRow laws element_of b.topic_enums b.datetime (clamp_bound b.block_sz) t q row r (
            s.kept w.0,
            record {
              typed = s.element_kept ∙ w.1.typed;
              stamped = s.dated_kept ∙ w.1.stamped;
              bounded = s.bound_kept ∙ w.1.bounded;
            },
          ) in
        let e : write_stream i t q b ≡ record b { block = set_at i x b.block } =
          ground (arith, g) in
        subst (IsValid laws element_of) (sym e) (record {
          items = λ j. ground (arith, g, v.items j, lookup-set_at i j x b.block, ei.beq_iff i j);
          rows = Every-set_at (RowOf laws element_of b) i x b.block y v.rows;
        })
  ]

module _ {E V G D S : Type 0} {c : StreamClass E V G D S} (laws : StreamLaws c)
    (element_of : Topic → E) where
  abbrev pub AllValid : Client S → Type 0
  AllValid s =
      Every (λ (id : String) (db : TosdBlock S). IsValid laws element_of db.block) s.dde_blocks

  -- The blocks stay valid, and each stream keeps its values and stamps.
  pub record Untouched (s t : Client S) : Type 0 where
    pub valid : AllValid t
    pub values_kept :
        (id i : String) (u : Topic) (k : ℤ)
        → seen (c.get_leave_marker k) (client_stream id i u t)
          ≡ seen (c.get_leave_marker k) (client_stream id i u s)
    pub stamps_kept :
        (id i : String) (u : Topic) (k : ℤ)
        → seen (c.both_leave_marker k) (client_stream id i u t)
          ≡ seen (c.both_leave_marker k) (client_stream id i u s)

  pub Untouched-refl : (s : Client S) → AllValid s → Untouched s s
  Untouched-refl s v = record {
    valid = v;
    values_kept = λ id i u k. refl;
    stamps_kept = λ id i u k. refl;
  }

  pub Untouched-trans : (a b d : Client S) → Untouched a b → Untouched b d → Untouched a d
  Untouched-trans a b d h g = record {
    valid = g.valid;
    values_kept = λ id i u k. g.values_kept id i u k ∙ h.values_kept id i u k;
    stamps_kept = λ id i u k. g.stamps_kept id i u k ∙ h.stamps_kept id i u k;
  }

  module _ {A : Type 0} (read : Action S StreamError A) (is_read : IsRead laws read) (id i : String)
      (t : Topic) (s : Client S) (v : AllValid s) where
    -- A stream of a valid client is sound, so the read keeps what it should.
    read-Same : (p : S) → client_stream id i t s ≡ some p → Same laws p (read p).1
    read-Same p h = elim (Option-cases (lookup id s.dde_blocks)) [
      | inl g ↦ absurd (ground (arith, h, g))
      | inr (db, g) ↦
          let w =
            Every-lookup (λ (id : String) (db : TosdBlock S). IsValid laws element_of db.block) id
              db s.dde_blocks v g in
          is_read p (stream_at-IsStream laws element_of i t p db.block w (ground (arith, h, g))).0
    ]

    with_stream-AllValid : AllValid (with_stream read id i t s).1
    with_stream-AllValid = elim (Option-cases (lookup id s.dde_blocks)) [
      | inl g ↦ subst (λ r. AllValid r.1) (sym (with_stream-missing read id i t s g)) v
      | inr (db, g) ↦
          let w =
            Every-lookup (λ (id : String) (db : TosdBlock S). IsValid laws element_of db.block) id
              db s.dde_blocks v g in
          elim (Option-cases (stream_at i t db.block)) [
            | inl h ↦ subst (λ r. AllValid r.1) (sym (with_stream-none read id i t s db g h)) v
            | inr (p, h) ↦
                let q = (read p).1 in
                let next : TosdBlock S = record db { block = write_stream i t q db.block } in
                subst (λ r. AllValid r.1) (sym (with_stream-some read id i t s db p g h))
                  (Every-set_at
                    (λ (id : String) (db : TosdBlock S). IsValid laws element_of db.block) id next
                    s.dde_blocks
                    (write_stream-IsValid laws element_of i t p db.block w h q
                      (read-Same p (ground (arith, h, g))))
                    v)
          ]
    ]

    -- A read of one stream, whether or not it throws, leaves the blocks valid and the values of
    -- every stream as they were.
    pub with_stream-Untouched : Untouched s (with_stream read id i t s).1
    with_stream-Untouched = record {
      valid = with_stream-AllValid;
      values_kept = λ id' j u k.
          seen-same (text_eq.beq id id' && (text_eq.beq i j && topic_eq.beq t u))
            (client_stream id i t s) (client_stream id' j u s)
            (client_stream id' j u (with_stream read id i t s).1) (λ p. (read p).1)
            (c.get_leave_marker k) (keys-same (λ x y z. client_stream x y z s) id id' i j t u)
            (λ p h. (read-Same p h).values_kept k)
            ((with_stream-client_stream read id i t s).1 id' j u);
      stamps_kept = λ id' j u k.
          seen-same (text_eq.beq id id' && (text_eq.beq i j && topic_eq.beq t u))
            (client_stream id i t s) (client_stream id' j u s)
            (client_stream id' j u (with_stream read id i t s).1) (λ p. (read p).1)
            (c.both_leave_marker k) (keys-same (λ x y z. client_stream x y z s) id id' i j t u)
            (λ p h. (read-Same p h).stamps_kept k)
            ((with_stream-client_stream read id i t s).1 id' j u);
    }
