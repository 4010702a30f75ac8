-- ===== src/Block/Interface.antt =====
-- include/data_stream.hpp: the interface class `DataStreamInterface`, as far as a block uses it, and
-- what a block relies on.
use tosdata_bridge.Prelude.{ℕ, ◌≡◌, Bool}
use tosdata_bridge.Prelude.Int.{ℤ, pos}
use tosdata_bridge.Prelude.Action.{Result, ok}
use tosdata_bridge.Stream.State.{StreamError, clamp_bound}

-- A stream `S` of elements of a type `E` takes values `V` with stamps `D`, and gives generic
-- values `G`. `push` has the answer of `try_lock` as its first argument.
pub record StreamClass (E V G D S : Type 0) : Type 0 where
  pub make : E → Bool → ℕ → S
  pub resize : ℕ → S → S
  pub push : Bool → V → D → S → Result StreamError (Unit {0}) × S
  pub get_leave_marker : ℤ → S → Result StreamError G
  pub both_leave_marker : ℤ → S → Result StreamError (G × D)
  pub element : S → E
  pub dated : S → Bool
  pub bound : S → ℕ

module _ {E V G D S : Type 0} where
  -- The stream has this type of elements, has or has no stamps, and has this bound.
  pub record HasShape (c : StreamClass E V G D S) (e : E) (d : Bool) (n : ℕ) (s : S) : Type 0 where
    pub typed : c.element s ≡ e
    pub stamped : c.dated s ≡ d
    pub bounded : c.bound s ≡ n

  pub record StreamLaws (c : StreamClass E V G D S) : Type 1 where
    pub Sound : S → Type 0
    pub make-Sound : (e : E) (d : Bool) (n : ℕ) → Sound (c.make e d n)
    pub make-HasShape : (e : E) (d : Bool) (n : ℕ) → HasShape c e d (clamp_bound n) (c.make e d n)
    pub resize-Sound : (n : ℕ) (s : S) → Sound s → Sound (c.resize n s)
    pub resize-HasShape :
        (n : ℕ) (s : S) → HasShape c (c.element s) (c.dated s) (clamp_bound n) (c.resize n s)
    pub push-Sound : (got : Bool) (v : V) (d : D) (s : S) → Sound s → Sound (c.push got v d s).1
    pub push-HasShape :
        (got : Bool) (v : V) (d : D) (s : S)
        → HasShape c (c.element s) (c.dated s) (c.bound s) (c.push got v d s).1
    pub get_leave_marker-ok : (s : S) → Sound s → (g : G) × (c.get_leave_marker (pos 0) s ≡ ok g)
    pub both_leave_marker-ok :
        (s : S) → Sound s → (p : G × D) × (c.both_leave_marker (pos 0) s ≡ ok p)
