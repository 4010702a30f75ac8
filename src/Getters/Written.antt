-- ===== src/Getters/Written.antt =====
-- What the calls for the frame of a topic (src/client/client_get.cpp) write.
use Prim.Native.String.{String}
use tosdata_bridge.Prelude.{
  ℕ, zero, suc, ◌≡◌, refl, ap, ◌∙◌, Bool, true, false, ◌&&◌, Option, none, some, List, [], ◌∷◌,
  take, ltb, Bool-cases, inl, inr, arith, if◌then◌else◌,
}
use tosdata_bridge.Prelude.Int.{ℤ, pos}
use tosdata_bridge.Prelude.Action.{Result, ok, err}
use tosdata_bridge.Prelude.Dict.{lookup, contains}
use tosdata_bridge.Prelude.Text.{count_chars}
use tosdata_bridge.Prelude.Order.{Ascending, in_order, in_order-Ascending, lookup-in_order}
use tosdata_bridge.Topics.Enum.{Topic, null_topic}
use tosdata_bridge.Topics.Map.{topic_eq, text_eq}
use tosdata_bridge.Block.Interface.{StreamClass, StreamLaws}
use tosdata_bridge.Block.State.{Block, BlockError}
use tosdata_bridge.Block.Invariant.{IsValid}
use tosdata_bridge.Block.Insert.{stream_at}
use tosdata_bridge.Block.Frame.{map_of_frame_items, pair_map_of_frame_items}
use tosdata_bridge.Block.Frames.{value}
use tosdata_bridge.Block.Matrix.{map_of_frame_items-lookup}
use tosdata_bridge.Client.State.{TosdBlock, Client}
use tosdata_bridge.Client.Valid.{is_valid_block_id}
use tosdata_bridge.Client.Query.{error_bad_input_buffer}
use tosdata_bridge.Getters.State.{with_block}
use tosdata_bridge.Getters.Frames.{
  Cell, write_label, write_frame, write_out, ask_frame, write_items, get_item_frame_cells,
}

-- Whether each label fits into its array with its end.
abbrev pub all_fit : {V : Type 0} → Option ℕ → List (String × V) → Bool
all_fit none m = true
all_fit (some n) [] = true
all_fit (some n) ((name, v) ∷ m) = ltb (count_chars name) n && all_fit (some n) m

-- The entries that are written.
abbrev pub cells :
    {V W D : Type 0} → (V → W × Option D) → Option ℕ → List (String × V) → List (Cell W D)
cells f none [] = []
cells f none ((name, v) ∷ m) =
    record { value = (f v).0; stamp = (f v).1; label = none } ∷ cells f none m
cells f (some n) [] = []
cells f (some n) ((name, v) ∷ m) =
    record { value = (f v).0; stamp = (f v).1; label = some name } ∷ cells f (some n) m

-- An entry before those that the rest of the loop writes.
prepend : {C : Type 0} → C → Result ℤ (List C) → Result ℤ (List C)
prepend c (err e) = err e
prepend c (ok l) = ok (c ∷ l)

prepend-if :
    {C : Type 0} (c : C) (b : Bool) (l : List C)
    → prepend c (if b then ok l else err error_bad_input_buffer)
      ≡ (if b then ok (c ∷ l) else err error_bad_input_buffer)
unfolding prepend
prepend-if c true l = refl
prepend-if c false l = refl

module _ {V W D : Type 0} (f : V → W × Option D) where
  write_frame-prepend :
      (k n : ℕ) (name : String) (v : V) (m : List (String × V))
      → ltb (count_chars name) k ≡ true
      → write_frame (λ v. ok (f v)) (some k) (suc n) ((name, v) ∷ m)
        ≡ prepend
            (record { value = (f v).0; stamp = (f v).1; label = some name })
            (write_frame (λ v. ok (f v)) (some k) n m)
  unfolding write_frame write_label prepend
  write_frame-prepend k n name v m a = rw (write_frame, write_label, a) refl

  write_frame-cells :
      (labels : Option ℕ) (n : ℕ) (m : List (String × V))
      → write_frame (λ v. ok (f v)) labels n m ≡ (
          if all_fit labels (take n m)
          then ok (cells f labels (take n m))
          else err error_bad_input_buffer)
  unfolding write_frame write_label
  write_frame-cells none zero m = refl
  write_frame-cells (some k) zero m = refl
  write_frame-cells none (suc n) [] = refl
  write_frame-cells (some k) (suc n) [] = refl
  write_frame-cells none (suc n) ((name, v) ∷ m) = rw (write_frame-cells none n m) refl
  write_frame-cells (some k) (suc n) ((name, v) ∷ m) =
      elim (Bool-cases (ltb (count_chars name) k)) [
        | inr a ↦ rw (write_frame, write_label, a) refl
        | inl a ↦
            let cell : Cell W D = record { value = (f v).0; stamp = (f v).1; label = some name } in
            write_frame-prepend k n name v m a
            ∙ ap (prepend cell) (write_frame-cells (some k) n m)
            ∙ prepend-if cell (all_fit (some k) (take n m)) (cells f (some k) (take n m))
            ∙ rw a refl
      ]

  write_out-cells :
      (labels : Option ℕ) (n : ℕ) (m : List (String × V))
      → write_out (λ v. ok (f v)) labels n (ok m) ≡ (
          if all_fit labels (take n (in_order m))
          then (pos 0, some (cells f labels (take n (in_order m))))
          else (error_bad_input_buffer, none))
  unfolding write_out
  write_out-cells labels n m =
      let l = in_order m in
      elim (Bool-cases (all_fit labels (take n l))) [
        | inl a ↦
            let e : write_frame (λ v. ok (f v)) labels n l ≡ ok (cells f labels (take n l)) =
              write_frame-cells labels n l ∙ rw a refl in
            rw (a, write_out, e) refl
        | inr a ↦
            let e : write_frame (λ v. ok (f v)) labels n l ≡ err error_bad_input_buffer =
              write_frame-cells labels n l ∙ rw a refl in
            rw (a, write_out, e) refl
      ]

ask_frame-ok :
    {S A : Type 0} (f : Block String Topic S → Result BlockError A) (id : String) (s : Client S)
    (db : TosdBlock S) (a : A)
    → lookup id s.dde_blocks ≡ some db
    → f db.block ≡ ok a
    → ask_frame f id s ≡ ok a
unfolding ask_frame with_block
ask_frame-ok f id s db a h e = ground (arith, h, e)

module _ {E V G D S : Type 0} {c : StreamClass E V G D S} (laws : StreamLaws c)
    (element_of : Topic → E) {W : Type 0} (f : G → W) where
  -- On a client with a valid block of a valid name, for a topic of the block other than the null
  -- topic, where the cast of no value throws: the call reads the newest value of each item of the
  -- block, with its stamp if `datetime` is true. Of these entries, each item once and in the order of
  -- the items' texts, it writes the first `n` and returns 0; if the label of one of the first `n` does
  -- not fit it returns `TOSDB_ERROR_BAD_INPUT_BUFFER`.
  pub get_item_frame_cells_complete :
      (id : String) (t : Topic) (n : ℕ) (labels : Option ℕ) (s : Client S) (db : TosdBlock S)
      → is_valid_block_id id ≡ true
      → topic_eq.beq t null_topic ≡ false
      → lookup id s.dde_blocks ≡ some db
      → IsValid laws element_of db.block
      → contains t db.block.topic_enums ≡ true
      → (m : List (String × G)) × (p : List (String × (G × D))) × Ascending m
        × Ascending p
        × (get_item_frame_cells c (λ g. ok (f g)) id t n labels false s ≡ (
            if all_fit labels (take n m)
            then (pos 0, some (cells (λ g. (f g, none)) labels (take n m)))
            else (error_bad_input_buffer, none)))
        × (get_item_frame_cells c (λ g. ok (f g)) id t n labels true s ≡ (
            if all_fit labels (take n p)
            then (pos 0, some (cells (λ q. (f q.0, some q.1)) labels (take n p)))
            else (error_bad_input_buffer, none)))
        × ((i : String)
            → (lookup i m ≡ elim (stream_at i t db.block) [
              | none ↦ none
              | some q ↦ value (c.get_leave_marker (pos 0) q)
            ])
              × (lookup i p ≡ elim (stream_at i t db.block) [
                | none ↦ none
                | some q ↦ value (c.both_leave_marker (pos 0) q)
              ]))
  unfolding get_item_frame_cells write_items
  get_item_frame_cells_complete id t n labels s db a b h v k =
      let (m, p, e, g, l) = map_of_frame_items-lookup laws element_of db.block t v k in
      (
        in_order m,
        in_order p,
        in_order-Ascending m,
        in_order-Ascending p,
        rw (a, b, ask_frame-ok (map_of_frame_items c t) id s db m h e)
            (write_out-cells (λ g. (f g, none)) labels n m),
        rw (a, b, ask_frame-ok (pair_map_of_frame_items c t) id s db p h g)
            (write_out-cells (λ q. (f q.0, some q.1)) labels n p),
        λ i. (lookup-in_order i m ∙ (l i).0, lookup-in_order i p ∙ (l i).1),
      )
