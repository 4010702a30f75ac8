-- ===== src/Stream/State.antt =====
-- include/data_stream.hpp and src/data_stream.tpp: the state of a `DataStream`, its constructors,
-- `_push`, `_incr_internal_counts`, `bound_size` and `_check_adj`.
use tosdata_bridge.Prelude.{
  ℕ, ◌+◌, ◌-◌, ◌*◌, ◌/◌, Bool, true, false, not, ◌&&◌, ◌||◌, none, some, List, ◌∷◌, min, max,
  length, get_elem?, pop_back, resize, replicate, ltb, ◌==◌, if◌then◌else◌,
}
use tosdata_bridge.Prelude.Int.{ℤ, pos, negsuc, pos_part, ◌+ℤ◌, ◌-ℤ◌, ltb_ℤ, eqb_ℤ, to_int, to_size}
use tosdata_bridge.Prelude.Action.{Result, ok, err}

-- The exceptions of the streams, with what they carry, and `std::out_of_range` of `deque::at`.
pub data StreamError : Type 0 where
  type_error : StreamError
  size_violation : (bound_size deque_size : ℕ) → StreamError
  out_of_range : (size beg end : ℤ) → StreamError
  invalid_argument : StreamError
  std_out_of_range : StreamError

-- The fields of `DataStream`, with the values that its pointers own; the mutex is not a field,
-- since each method holds it from its first access to its last.
pub record Stream (A : Type 0) : Type 0 where
  pub deque : List A
  pub qbound : ℕ
  pub qcount : ℕ
  pub mark_count : ℤ
  pub mark_is_dirty : Bool
  pub push_has_priority : Bool

-- `MAX_BOUND_SIZE`, which is `INT_MAX`.
abbrev pub max_bound_size : ℕ
max_bound_size = 65536 * 65536 / 2 - 1

abbrev pub clamp_bound : ℕ → ℕ
clamp_bound sz = max (min sz max_bound_size) 1

-- The range test of `_check_adj`, on adjusted indices, which it hands over as numbers.
unfoldable pub check_range : ℤ → ℤ → ℤ → Result StreamError (ℕ × ℕ)
check_range end beg sz =
    if not (ltb_ℤ beg sz) || not (ltb_ℤ end sz) || ltb_ℤ beg (pos 0) || ltb_ℤ end (pos 0)
    then err (out_of_range sz beg end)
    else if ltb_ℤ end beg
    then err invalid_argument
    else ok (pos_part end, pos_part beg)

-- A negative index counts from the end.
unfoldable pub adjust : ℤ → ℤ → ℤ
adjust sz i = if ltb_ℤ i (pos 0) then i +ℤ sz else i

unfoldable pub check_adj : {A : Type 0} → ℤ → ℤ → List A → ℕ → Result StreamError (ℕ × ℕ)
check_adj end beg d qbound =
    let sz = to_int (pos (length d)) in
    if qbound == to_size sz
    then check_range (adjust sz end) (adjust sz beg) sz
    else err (size_violation qbound (to_size sz))

-- `deque::at`, and `front` of a deque that is not empty.
abbrev pub at : {A : Type 0} → List A → ℕ → Result StreamError A
at d i = elim (get_elem? d i) [ none ↦ err std_out_of_range | some a ↦ ok a ]

-- The last case mends a marker that has passed the end, and flags it.
unfoldable pub incr_mark : ℤ → ℤ → Bool → ℤ × Bool
incr_mark penult mark dirty =
    if eqb_ℤ mark penult
    then (mark, true)
    else if ltb_ℤ mark penult
    then (mark +ℤ pos 1, dirty)
    else (mark -ℤ pos 1, true)

module _ {A : Type 0} where
  -- The constructor of a size; `blank` is the value-initialised element.
  unfoldable pub new_stream : A → ℕ → Stream A
  new_stream blank sz = record {
    deque = replicate (clamp_bound sz) blank;
    qbound = clamp_bound sz;
    qcount = 0;
    mark_count = negsuc 0;
    mark_is_dirty = false;
    push_has_priority = true;
  }

  -- The copy constructor.
  unfoldable pub copy_stream : Stream A → Stream A
  copy_stream s = record s { push_has_priority = true }

  unfoldable pub incr_internal_counts : Stream A → Stream A
  unfolding incr_mark
  incr_internal_counts s =
      let (mark, dirty) = incr_mark (pos s.qbound -ℤ pos 1) s.mark_count s.mark_is_dirty in
      record s {
        qcount = if ltb s.qcount s.qbound then s.qcount + 1 else s.qcount;
        mark_count = mark;
        mark_is_dirty = dirty;
      }

  -- `_push`: `got` is what `try_lock` answered.
  unfoldable pub push : Bool → A → Stream A → Stream A
  unfolding incr_internal_counts
  push got v s =
      incr_internal_counts (record s { push_has_priority = got; deque = pop_back (v ∷ s.deque) })

  -- `bound_size(sz)`, with what it returns.
  unfoldable pub set_bound_size : A → ℕ → Stream A → ℕ × Stream A
  set_bound_size blank size s =
      let sz = clamp_bound size in
      let clipped = ltb sz s.qbound && not (ltb_ℤ s.mark_count (pos sz)) in
      (
        sz,
        record s {
          deque = resize sz blank s.deque;
          mark_count = if clipped then pos sz -ℤ pos 1 else s.mark_count;
          mark_is_dirty = if clipped then true else s.mark_is_dirty;
          qbound = sz;
          qcount = if ltb sz s.qcount then sz else s.qcount;
        },
      )
