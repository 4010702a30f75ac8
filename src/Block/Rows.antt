-- ===== src/Block/Rows.antt =====
-- The rows of a block (src/raw_data_block.tpp): what a valid row is, and the operations on rows.
use tosdata_bridge.Prelude.{
  ℕ, ◌≡◌, refl, ◌∙◌, Bool, ◌||◌, some, List, [], ◌∷◌, arith, if◌then◌else◌,
}
use tosdata_bridge.Prelude.Dict.{
  Eq, lookup, erase, set_at, contains, remove, map_values, is_some, Every, Every-erase,
  Every-insert, Every-set_at, Every-map_values, lookup-erase, lookup-erase_self, lookup-insert,
  lookup-set_at, lookup-map_values, contains-remove,
}
use tosdata_bridge.Stream.State.{clamp_bound}
use tosdata_bridge.Block.Interface.{StreamClass, StreamLaws, HasShape}
use tosdata_bridge.Block.State.{insert_topic, populate_tblock}

module _ {E V G D T S : Type 0} ⦃et : Eq T⦄ {c : StreamClass E V G D S} (laws : StreamLaws c)
    (element_of : T → E) where
  -- A stream of the right type and bound at each entry.
  abbrev pub IsStream : Bool → ℕ → T → S → Type 0
  IsStream datetime n t s = laws.Sound s × HasShape c (element_of t) datetime n s

  pub record IsRow (ts : List T) (datetime : Bool) (n : ℕ) (row : List (T × S)) : Type 0 where
    pub topics : (t : T) → contains t ts ≡ is_some (lookup t row)
    pub streams : Every (IsStream datetime n) row

  insert_topic-Every :
      (d : Bool) (sz : ℕ) (t : T) (row : List (T × S))
      → Every (IsStream d (clamp_bound sz)) row
      → Every (IsStream d (clamp_bound sz)) (insert_topic c element_of d sz t row)
  unfolding insert_topic
  insert_topic-Every d sz t row a =
      Every-insert (IsStream d (clamp_bound sz)) t (c.make (element_of t) d sz) (erase t row)
        (laws.make-Sound (element_of t) d sz, laws.make-HasShape (element_of t) d sz)
        (Every-erase (IsStream d (clamp_bound sz)) t row a)

  pub lookup-insert_topic :
      (d : Bool) (sz : ℕ) (t u : T) (row : List (T × S))
      → lookup u (insert_topic c element_of d sz t row)
        ≡ (if et.beq t u then some (c.make (element_of t) d sz) else lookup u row)
  unfolding insert_topic
  lookup-insert_topic d sz t u row = ground (
    arith,
    lookup-insert t u (c.make (element_of t) d sz) (erase t row) (lookup-erase_self t row),
    lookup-erase t u row,
  )

  populate-Every :
      (d : Bool) (sz : ℕ) (ts : List T) (row : List (T × S))
      → Every (IsStream d (clamp_bound sz)) row
      → Every (IsStream d (clamp_bound sz)) (populate_tblock c element_of d sz ts row)
  unfolding populate_tblock
  populate-Every d sz [] row a = a
  populate-Every d sz (t ∷ ts) row a =
      populate-Every d sz ts (insert_topic c element_of d sz t row)
        (insert_topic-Every d sz t row a)

  lookup-populate :
      (d : Bool) (sz : ℕ) (ts : List T) (u : T) (row : List (T × S))
      → is_some (lookup u (populate_tblock c element_of d sz ts row))
        ≡ (contains u ts || is_some (lookup u row))
  unfolding populate_tblock
  lookup-populate d sz [] u row = refl
  lookup-populate d sz (t ∷ ts) u row = ground (
    arith,
    lookup-populate d sz ts u (insert_topic c element_of d sz t row),
    lookup-insert_topic d sz t u row,
  )

  pub populate-IsRow :
      (d : Bool) (sz : ℕ) (ts : List T)
      → IsRow ts d (clamp_bound sz) (populate_tblock c element_of d sz ts [])
  populate-IsRow d sz ts = record {
    topics = λ u. ground (arith, lookup-populate d sz ts u []);
    streams = populate-Every d sz ts [] tt;
  }

  pub insert_topic-IsRow :
      (ts : List T) (d : Bool) (sz : ℕ) (t : T) (row : List (T × S))
      → IsRow ts d (clamp_bound sz) row
      → IsRow (t ∷ ts) d (clamp_bound sz) (insert_topic c element_of d sz t row)
  insert_topic-IsRow ts d sz t row r = record {
    topics = λ u. ground (arith, lookup-insert_topic d sz t u row, r.topics u);
    streams = insert_topic-Every d sz t row r.streams;
  }

  pub erase-IsRow :
      (ts : List T) (d : Bool) (n : ℕ) (t : T) (row : List (T × S))
      → IsRow ts d n row
      → IsRow (remove t ts) d n (erase t row)
  erase-IsRow ts d n t row r = record {
    topics = λ u. ground (arith, lookup-erase t u row, contains-remove t u ts, r.topics u);
    streams = Every-erase (IsStream d n) t row r.streams;
  }

  pub set_at-IsRow :
      (ts : List T) (d : Bool) (n : ℕ) (t : T) (s : S) (row : List (T × S))
      → IsRow ts d n row
      → IsStream d n t s
      → IsRow ts d n (set_at t s row)
  set_at-IsRow ts d n t s row r h = record {
    topics = λ u. ground (arith, lookup-set_at t u s row, r.topics u, et.beq_iff t u);
    streams = Every-set_at (IsStream d n) t s row h r.streams;
  }

  resize-IsStream :
      (d : Bool) (n sz : ℕ) (t : T) (s : S)
      → IsStream d n t s
      → IsStream d (clamp_bound sz) t (c.resize sz s)
  resize-IsStream d n sz t s h =
      let q = laws.resize-HasShape sz s in
      (
        laws.resize-Sound sz s h.0,
        record {
          typed = q.typed ∙ h.1.typed;
          stamped = q.stamped ∙ h.1.stamped;
          bounded = q.bounded;
        },
      )

  pub push-IsStream :
      (d : Bool) (n : ℕ) (t : T) (got : Bool) (v : V) (stamp : D) (s : S)
      → IsStream d n t s
      → IsStream d n t (c.push got v stamp s).1
  push-IsStream d n t got v stamp s h =
      let q = laws.push-HasShape got v stamp s in
      (
        laws.push-Sound got v stamp s h.0,
        record {
          typed = q.typed ∙ h.1.typed;
          stamped = q.stamped ∙ h.1.stamped;
          bounded = q.bounded ∙ h.1.bounded;
        },
      )

  pub resize-IsRow :
      (ts : List T) (d : Bool) (n sz : ℕ) (row : List (T × S))
      → IsRow ts d n row
      → IsRow ts d (clamp_bound sz) (map_values (c.resize sz) row)
  resize-IsRow ts d n sz row r = record {
    topics = λ u. ground (arith, lookup-map_values (c.resize sz) u row, r.topics u);
    streams =
        Every-map_values (IsStream d n) (IsStream d (clamp_bound sz)) (c.resize sz)
          (resize-IsStream d n sz) row r.streams;
  }
