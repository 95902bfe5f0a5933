-- ===== src/Sample.antt =====
-- A small stand-in for the libraries behind `JsonLibrary`, on which the examples run: `diff` replaces
-- the whole value, and `patch` knows the empty patch and that replacement.
use native.Mathlib.Decide.{ℕ_discrete}
use replicant.Prelude.{
  ◌≡◌, refl, inl, inr, ◌⊎◌, ◌↔◌, Bool, true, false, [], ◌∷◌, codes, Text, arith,
}
use replicant.Json.{Value, field, PatchOperation, Patch, replace, JsonLibrary}
use replicant.Conflicts.Merge.{lookup, MapLaws}
use replicant.Conflicts.Arrays.{ComparesValues}
use replicant.Patches.Reverse.{PatchesDiff}
use replicant.Patches.Transforms.{ComparesOperations}

pub value_discrete : Discrete Value
value_discrete = hlevel ℕ_discrete

pub operation_discrete : Discrete PatchOperation
operation_discrete = hlevel (ℕ_discrete, value_discrete)

abbrev is_yes {ℓ} : {A : Type ℓ} → Dec A → Bool
is_yes (yes a) = true
is_yes (no n) = false

is_yes_iff {ℓ} : {A : Type ℓ} (d : Dec A) → (is_yes d ≡ true) ↔ A
is_yes_iff (yes a) = (λ e. a, λ x. refl)
is_yes_iff (no n) = (λ e. ground arith, λ x. absurd (n x))

abbrev run_patch : Value → Patch → Value ⊎ Text
run_patch v [] = inl v
run_patch v (replace o ∷ ops) = run_patch o.value ops
run_patch v (_ ∷ ops) = inr (codes "unsupported operation")

unfoldable pub sample_json : JsonLibrary
sample_json = record {
  diff = λ a b. replace (record { path = []; value = b }) ∷ [];
  patch = run_patch;
  value_eq = λ a b. is_yes (value_discrete a b);
  operation_eq = λ a b. is_yes (operation_discrete a b);
  to_string = λ v. codes "value";
  sha256_hex = λ t. t;
  get = lookup;
  insert = field;
}

pub sample_json-ComparesValues : ComparesValues sample_json
unfolding sample_json
sample_json-ComparesValues a b = is_yes_iff (value_discrete a b)

pub sample_json-ComparesOperations : ComparesOperations sample_json
unfolding sample_json
sample_json-ComparesOperations a b = is_yes_iff (operation_discrete a b)

pub sample_json-PatchesDiff : PatchesDiff sample_json
unfolding sample_json
sample_json-PatchesDiff a b = refl

pub sample_json-MapLaws : MapLaws sample_json
unfolding sample_json
sample_json-MapLaws = record { get-insert = λ k j v m. refl; get-lookup = λ k m d. refl }
