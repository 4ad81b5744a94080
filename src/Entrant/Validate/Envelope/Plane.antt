-- ===== src/Entrant/Validate/Envelope/Plane.antt =====
-- The data plane of an envelope that passes the validation.
use spate_benchmark.Prelude.{
  ℕ, suc, Bool, not, Option, none, some, List, [], ◌∷◌, ◌++◌, Text, find, filter, length, ◌==◌,
  ==_iff, ◌≡◌, refl, ap, sym, ◌∙◌, arith, append-nil_iff, Bool-cases, inl, inr,
}
use spate_benchmark.Ceiling.Float.{Float}
use spate_benchmark.Entrant.Descriptor.{is_data_plane, Container, Envelope, declared_containers}
use spate_benchmark.Entrant.Memory.{parse_memory}
use spate_benchmark.Entrant.Validate.Problems.{data_planes}
use spate_benchmark.Entrant.Validate.Parts.{report_if-nil}
use spate_benchmark.Entrant.Validate.Env.Known.{true_of_not}
use spate_benchmark.Entrant.Validate.Envelope.{
  Cpus, sum_cpus, check_cpus, memory_or_zero, sum_memory, check_memory, planes, check_planes,
  validate_envelope,
}

nil_of_length : {A : Type 0} (xs : List A) → length xs ≡ 0 → xs ≡ []
nil_of_length [] h = refl
nil_of_length (x ∷ xs) h = absurd (omega arith)

-- A filtered list of one is what is found.
filter_one :
    (p : Container → Bool) (cs : List Container)
    → length (filter p cs) ≡ 1
    → (c : Container) × (filter p cs ≡ c ∷ []) × (find p cs ≡ some c)
filter_one p [] h = absurd (omega arith)
filter_one p (c ∷ cs) h = elim (Bool-cases (p c)) [
  | inl t ↦
      let hit : filter p (c ∷ cs) ≡ c ∷ filter p cs = rw t refl in
      let more : suc (length (filter p cs)) ≡ 1 = ap length (sym hit) ∙ h in
      let none_left = nil_of_length (filter p cs) (omega arith) in
      (c, hit ∙ ap (λ r. c ∷ r) none_left, rw t refl)
  | inr f ↦
      let miss : filter p (c ∷ cs) ≡ filter p cs = rw f refl in
      let (d, only, found) = filter_one p cs (ap length (sym miss) ∙ h) in
      (d, miss ∙ only, rw f found)
]

module _ (fl : Float) (cpus : Cpus fl.F) where
  memory_matches :
      (declared : Text) (sum : ℕ) (o : Option ℕ)
      → check_memory fl cpus declared sum o ≡ []
      → o ≡ some sum
  unfolding check_memory
  memory_matches declared sum none h = cc
  memory_matches declared sum (some want) h =
      let same = true_of_not (want == sum) ((report_if-nil (not (want == sum)) _).0 h) in
      ap some ((==_iff want sum).0 same)

  planes_passed :
      (env : Envelope) (ps : List Container)
      → check_planes fl cpus env ps ≡ []
      → (length ps ≡ 1) × (parse_memory env.memory ≡ some (sum_memory ps))
  unfolding check_planes
  planes_passed env ps h = elim (Bool-cases (length ps == 1)) [
    | inl one ↦
        let sum = sum_cpus fl cpus cpus.zero_sum ps in
        let both : check_cpus fl cpus env.cpus sum
              ++ check_memory fl cpus env.memory (sum_memory ps) (parse_memory env.memory)
            ≡ [] =
          rw one at h in
        let (_, m) = (append-nil_iff (check_cpus fl cpus env.cpus sum) _).0 both in
        ((==_iff (length ps) 1).0 one, memory_matches env.memory _ _ m)
    | inr other ↦ let none_of : data_planes (length ps) ∷ [] ≡ [] = rw other at h in cc
  ]

  -- The one container of the data plane, and its memory.
  pub validate_envelope-plane :
      (o : Option Envelope)
      → validate_envelope fl cpus o ≡ []
      → (env : Envelope) × (c : Container) × (o ≡ some env)
        × (find (λ c. is_data_plane c.role) (declared_containers o) ≡ some c)
        × (filter (λ c. is_data_plane c.role) (declared_containers o) ≡ c ∷ [])
        × (parse_memory env.memory ≡ some (memory_or_zero (parse_memory c.memory)))
  unfolding validate_envelope sum_memory
  validate_envelope-plane none h = cc
  validate_envelope-plane (some env) h =
      let (one, memory) = planes_passed env (planes env.containers) h in
      let (c, only, found) = filter_one (λ c. is_data_plane c.role) env.containers one in
      (
        env,
        c,
        refl,
        found,
        only,
        memory ∙ ap (λ ps. some (sum_memory ps)) only ∙ ap some (omega arith),
      )
