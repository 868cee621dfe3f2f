-- ===== src/Cache/Store/Inversion.antt =====
-- What a method that gives a value went through, and what methods keep.
use stellarview_tui.Prelude.{◌≡◌, refl, String, Bool, true, false, Option, none, some, List}
use stellarview_tui.Cache.Store.{Tables, Answer, given, Method, refuse_if, query, execute}

module _ {A : Type 0} where
  pub refuse_if-eq-given :
      (test : Bool) (reason : String) (method : Method A) (tables : Tables) (a : A)
      → (refuse_if test reason method tables).0 ≡ given a
      → (test ≡ false)
        × (refuse_if test reason method tables ≡ method tables)
        × ((method tables).0 ≡ given a)
  unfolding refuse_if
  refuse_if-eq-given true reason method tables a h = cc
  refuse_if-eq-given false reason method tables a h = (refl, refl, h)

  pub query-eq-given :
      (problem : Option String) (format : String) (args : List String) (read : Tables → Answer A)
      (tables : Tables) (a : A)
      → (query problem format args read tables).0 ≡ given a
      → read tables ≡ given a
  unfolding query
  query-eq-given none format args read tables a h = h
  query-eq-given (some e) format args read tables a h = cc

pub execute-eq-given :
    (problem : Option String) (format : String) (args : List String) (change : Tables → Tables)
    (tables : Tables)
    → (execute problem format args change tables).0 ≡ given tt
    → execute problem format args change tables ≡ (given tt, change tables)
unfolding execute
execute-eq-given none format args change tables h = refl
execute-eq-given (some e) format args change tables h = cc

-- A property of the tables that a method keeps, whether it fails or not.
module _ (P : Tables → Type 0) where
  pub record Keeps {A : Type 0} (method : Method A) : Type 0 where
    pub after : (tables : Tables) → P tables → P (method tables).1

  refuse_if-after :
      {A : Type 0} (test : Bool) (reason : String) (method : Method A)
      → Keeps method
      → (tables : Tables) → P tables
      → P (refuse_if test reason method tables).1
  unfolding refuse_if
  refuse_if-after true reason method keeps tables h = h
  refuse_if-after false reason method keeps tables h = keeps.after tables h

  pub refuse_if-Keeps :
      {A : Type 0} (test : Bool) (reason : String) (method : Method A)
      → Keeps method
      → Keeps (refuse_if test reason method)
  refuse_if-Keeps test reason method keeps = record { after = refuse_if-after _ _ _ keeps }

  execute-after :
      (problem : Option String) (format : String) (args : List String) (change : Tables → Tables)
      → ((tables : Tables) → P tables → P (change tables))
      → (tables : Tables) → P tables
      → P (execute problem format args change tables).1
  unfolding execute
  execute-after none format args change keeps tables h = keeps tables h
  execute-after (some e) format args change keeps tables h = h

  pub execute-Keeps :
      (problem : Option String) (format : String) (args : List String) (change : Tables → Tables)
      → ((tables : Tables) → P tables → P (change tables))
      → Keeps (execute problem format args change)
  execute-Keeps problem format args change keeps = record { after = execute-after _ _ _ _ keeps }
