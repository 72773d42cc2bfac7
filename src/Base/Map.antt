-- ===== src/Base/Map.antt =====
-- Go's `map[string]V` as an association list. A read of a missing key is `none`; the order of the
-- entries is the order in which `range` meets them.
use Prim.Native.Nat.{◌<◌}
use Prim.Native.String.{String}
use mathlib.Core.Path.{◌≡◌, refl}
use mathlib.Core.Bool.{Bool, true, false}
use mathlib.Core.List.{List, [], ◌∷◌, map}
use mathlib.Core.Option.{Option, none, some}
use native.Mathlib.Omega.{arith}
use text.Mathlib.Text.{◌==◌ as str_eq}
use text.Mathlib.TextEquality.{eq_iff}
use socket_go.Base.Tests.{if◌then◌else◌, is_some}
use socket_go.Base.Lists.{length, At, here, there}

abbrev pub Map {ℓ} : Type ℓ → Type ℓ
Map V = List (String × V)

module _ {ℓ} {V : Type ℓ} where
  unfoldable pub lookup : String → Map V → Option V
  lookup k [] = none
  lookup k ((j, v) ∷ m) = if str_eq j k then some v else lookup k m

  unfoldable pub insert : String → V → Map V → Map V
  insert k v [] = (k, v) ∷ []
  insert k v ((j, w) ∷ m) = if str_eq j k then (k, v) ∷ m else (j, w) ∷ insert k v m

  unfoldable pub delete : String → Map V → Map V
  delete k [] = []
  delete k ((j, w) ∷ m) = if str_eq j k then delete k m else (j, w) ∷ delete k m

  abbrev pub has : String → Map V → Bool
  has k m = is_some (lookup k m)

  abbrev pub keys : Map V → List String
  keys = map (λ e. e.0)

  abbrev pub values : Map V → List V
  values = map (λ e. e.1)

  -- No key stands twice.
  abbrev pub IsMap : Map V → Type ℓ
  IsMap [] = Unit
  IsMap ((k, v) ∷ m) = (lookup k m ≡ none) × IsMap m

-- Membership and distinctness of keys.
abbrev pub mem : String → List String → Bool
mem s [] = false
mem s (x ∷ xs) = if str_eq x s then true else mem s xs

abbrev pub Distinct : List String → Type 0
Distinct [] = Unit
Distinct (x ∷ xs) = (mem x xs ≡ false) × Distinct xs

module _ {ℓ} {V : Type ℓ} where
  pub mem-keys : (j : String) (m : Map V) → mem j (keys m) ≡ has j m
  unfolding lookup
  mem-keys j [] = refl
  mem-keys j ((k, a) ∷ m) = ground (arith, mem-keys j m)

  pub keys-Distinct : (m : Map V) → IsMap m → Distinct (keys m)
  keys-Distinct [] d = tt
  keys-Distinct ((k, a) ∷ m) d = (ground (arith, mem-keys k m, d.0), keys-Distinct m d.1)

  pub lookup-insert :
      (k j : String) (v : V) (m : Map V)
      → lookup j (insert k v m) ≡ (if str_eq k j then some v else lookup j m)
  unfolding lookup insert
  lookup-insert k j v [] = refl
  lookup-insert k j v ((head, w) ∷ rest) =
      ground (arith, lookup-insert k j v rest, eq_iff head j, eq_iff head k, eq_iff k j)

  pub lookup-delete :
      (k j : String) (m : Map V) → lookup j (delete k m) ≡ (if str_eq k j then none else lookup j m)
  unfolding lookup delete
  lookup-delete k j [] = ground arith
  lookup-delete k j ((i, w) ∷ m) =
      ground (arith, eq_iff k j, eq_iff i k, eq_iff i j, lookup-delete k j m)

  pub insert-IsMap : (k : String) (v : V) (m : Map V) → IsMap m → IsMap (insert k v m)
  unfolding lookup insert
  insert-IsMap k v [] h = (refl, tt)
  insert-IsMap k v ((j, w) ∷ m) h =
      ground (arith, eq_iff j k, eq_iff k j, lookup-insert k j v m, insert-IsMap k v m h.1)

  pub delete-IsMap : (k : String) (m : Map V) → IsMap m → IsMap (delete k m)
  unfolding lookup delete
  delete-IsMap k [] h = tt
  delete-IsMap k ((j, w) ∷ m) h =
      ground (arith, eq_iff j k, eq_iff k j, lookup-delete k j m, delete-IsMap k m h.1)

  pub delete_absent : (k : String) (m : Map V) → lookup k m ≡ none → delete k m ≡ m
  unfolding lookup delete
  delete_absent k [] h = refl
  delete_absent k ((j, w) ∷ m) h = ground (arith, delete_absent k m)

  pub length-insert_pos : (k : String) (v : V) (m : Map V) → 0 < length (insert k v m)
  unfolding insert
  length-insert_pos k v [] = omega arith
  length-insert_pos k v ((j, w) ∷ m) = ground arith

  At-values_step :
      (k j : String) (w : V) (m : Map V) {v : V}
      → (lookup k m ≡ some v → At v (values m))
      → (b : Bool) → str_eq j k ≡ b
      → lookup k ((j, w) ∷ m) ≡ some v
      → At v (w ∷ values m)
  unfolding lookup
  At-values_step k j w m {v} ih true e h = let same : w ≡ v = ground arith in rw same here
  At-values_step k j w m ih false e h = there (ih (ground arith))

  -- A value that a key maps to is met by `range`.
  pub At-values : (k : String) (m : Map V) {v : V} → lookup k m ≡ some v → At v (values m)
  At-values k [] h = absurd (unfold lookup in cc)
  At-values k ((j, w) ∷ m) h = At-values_step k j w m (At-values k m) (str_eq j k) refl h

  lookup_ne_key :
      (k j : String) {v : V} (w : V) (m : Map V)
      → lookup k m ≡ some v
      → lookup j m ≡ none
      → lookup k ((j, w) ∷ m) ≡ some v
  unfolding lookup
  lookup_ne_key k j w m a b = ground (arith, eq_iff j k)

  -- What `range` meets is what the key maps to.
  pub lookup-At : {k : String} {v : V} {m : Map V} → IsMap m → At (k, v) m → lookup k m ≡ some v
  unfolding lookup
  lookup-At {k = k} h here = rw (eq_iff k k).1 refl
  lookup-At {k = k} h (there {x = x} {xs = xs} a) = lookup_ne_key k x.0 x.1 xs (lookup-At h.1 a) h.0

  At-entry_step :
      (k j : String) (w : V) (m : Map V) {v : V}
      → (lookup k m ≡ some v → At (k, v) m)
      → (b : Bool) → str_eq j k ≡ b
      → lookup k ((j, w) ∷ m) ≡ some v
      → At (k, v) ((j, w) ∷ m)
  unfolding lookup
  At-entry_step k j w m {v} ih true e h =
      let same : w ≡ v = ground arith in rw (same, (eq_iff j k).0 e) here
  At-entry_step k j w m ih false e h = there (ih (ground arith))

  pub At-entry : (k : String) (m : Map V) {v : V} → lookup k m ≡ some v → At (k, v) m
  At-entry k [] h = absurd (unfold lookup in cc)
  At-entry k ((j, w) ∷ m) h = At-entry_step k j w m (At-entry k m) (str_eq j k) refl h
