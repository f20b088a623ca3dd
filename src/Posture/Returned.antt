-- ===== src/Posture/Returned.antt =====
-- A posture expression as it is read back: the value of a leaf is then one that encoding/json
-- decodes into an `any`.
use firezone_sdk_go.Common.{ℤ, Bool, ◌≡◌, Option, none, some, List, [], ◌∷◌, Bytes}
use firezone_sdk_go.Value.{
  Any, Anys, Number, whole, finite, nil_value, a_bool, an_int, a_float, a_string, a_strings,
  an_array, no_values, one_value,
}
use firezone_sdk_go.Posture.{PostureNode, Nodes, MaybeNode, node, empty, more, absent, present}

-- A []any of these strings.
abbrev pub array_of : List Bytes → Anys
array_of [] = no_values
array_of (s ∷ ss) = one_value (a_string s) (array_of ss)

module _ (float_of : Number → Option Number) where
  -- What a value is read back as: a number is the float64 nearest to it, a []string is a []any, and
  -- a nil slice is a nil interface. Nothing is said of maps and of values of other types.
  mutual
    pub data ReadAs : Any → Any → Type 0 where
      read_nil : ReadAs nil_value nil_value
      read_bool : (b : Bool) → ReadAs (a_bool b) (a_bool b)
      read_int :
          (n : ℤ) (x : Number)
          → float_of (whole n) ≡ some x
          → ReadAs (an_int n) (a_float (finite x))
      read_float :
          (y x : Number) → float_of y ≡ some x → ReadAs (a_float (finite y)) (a_float (finite x))
      read_string : (s : Bytes) → ReadAs (a_string s) (a_string s)
      read_nil_slice : ReadAs (a_strings none) nil_value
      read_strings : (ss : List Bytes) → ReadAs (a_strings (some ss)) (an_array (array_of ss))
      read_array : {vs ws : Anys} → AllReadAs vs ws → ReadAs (an_array vs) (an_array ws)

    pub data AllReadAs : Anys → Anys → Type 0 where
      none_read : AllReadAs no_values no_values
      one_read :
          {v w : Any} {vs ws : Anys}
          → ReadAs v w
          → AllReadAs vs ws
          → AllReadAs (one_value v vs) (one_value w ws)

  -- The same expression at every depth, but for its values.
  mutual
    pub data Returned : PostureNode → PostureNode → Type 0 where
      node_returned :
          {as' bs os ps : Nodes} {n m : MaybeNode} {name operator rows : Bytes} {v w : Any}
          → AllReturned as' bs
          → AllReturned os ps
          → MaybeReturned n m
          → ReadAs v w
          → Returned (node as' os n name operator v rows) (node bs ps m name operator w rows)

    pub data AllReturned : Nodes → Nodes → Type 0 where
      none_returned : AllReturned empty empty
      one_returned :
          {n m : PostureNode} {ns ms : Nodes}
          → Returned n m
          → AllReturned ns ms
          → AllReturned (more n ns) (more m ms)

    pub data MaybeReturned : MaybeNode → MaybeNode → Type 0 where
      absent_returned : MaybeReturned absent absent
      present_returned : {n m : PostureNode} → Returned n m → MaybeReturned (present n) (present m)
