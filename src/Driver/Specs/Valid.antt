-- ===== src/Driver/Specs/Valid.antt =====
-- The containers of an arm whose descriptor is valid.
use spate_benchmark.Prelude.{
  ℕ, true, Option, none, some, List, [], ◌∷◌, ◌++◌, map, Text, text_eq, eq_of_text_eq, any,
  get_elem?, ◌||◌, ◌≡◌, refl, ap, sym, subst, ◌∙◌, All, All_of_get_elem?, All-get_elem?,
  get_elem?-map, All-map, Bool-cases, inl, inr,
}
use mathlib.Core.List.{map-append}
use spate_benchmark.Entrant.Descriptor.{
  declared_containers, get, Container, Envelope, Variant, Entrant, is_runnable,
}
use spate_benchmark.Entrant.Placeholders.Template.{Part, print, holes, IsTemplate}
use spate_benchmark.Entrant.Validate.{Reads, validate}
use spate_benchmark.Entrant.Validate.Env.Known.{validate_env-IsKnown}
use spate_benchmark.Entrant.Validate.Envelope.{validate_envelope}
use spate_benchmark.Entrant.Validate.Passed.{validate-Passes}
use spate_benchmark.Driver.Substitute.Plain.{IsPlain, known-Resolves}
use spate_benchmark.Driver.Overrides.Kept.{has_key, get-has, insert_all-All, insert_all-has}
use spate_benchmark.Driver.Substitute.{Run, ok, or_empty}
use spate_benchmark.Driver.Substitute.Filled.{fill, Resolves, substitute-fill}
use spate_benchmark.Driver.Specs.{
  Invocation, built, full_name, named, container_names, run_of, env_of, entries, push_entry,
  spec_of, specs_of, build_from, build_specs, key_of,
}
use spate_benchmark.Driver.Specs.Ordered.{IsTold, key_of-named, controls, datas, sort_by_key-planes}

-- An entry's value stands for the entry's key.
abbrev IsFull : Text × Text → Type 0
IsFull (name, full) = full ≡ full_name name

named-IsFull : (cs : List Container) → All IsFull (map named cs)
named-IsFull [] = tt
named-IsFull (c ∷ cs) = (refl, named-IsFull cs)

module _ (cs : List Container) where
  full_of :
      (ds : List Container)
      → All (λ p. has_key (p.0) (container_names cs) ≡ true) (map named ds)
      → All (λ c. get c.name (container_names cs) ≡ some (full_name c.name)) ds
  unfolding container_names
  full_of [] _ = tt
  full_of (d ∷ ds) (k, ks) =
      let all = insert_all-All IsFull [] (map named cs) tt (named-IsFull cs) in
      let (w, g, q) = get-has IsFull d.name (container_names cs) all k in
      (g ∙ ap some q, full_of ds ks)

  names-full : All (λ c. get c.name (container_names cs) ≡ some (full_name c.name)) cs
  unfolding container_names
  names-full = full_of cs (insert_all-has [] (map named cs))

  starts_of :
      (ds : List Container) (c : Text)
      → All (λ p. has_key (p.0) (container_names cs) ≡ true) (map named ds)
      → any (λ ct. text_eq ct.name c) ds ≡ true
      → has_key c (container_names cs) ≡ true
  starts_of [] c _ h = cc
  starts_of (d ∷ ds) c (k, ks) h = elim (Bool-cases (text_eq d.name c)) [
    | inl e ↦ subst (λ t. has_key t (container_names cs) ≡ true) (eq_of_text_eq d.name c e) k
    | inr n ↦ starts_of ds c ks (ap (λ b. b || any (λ ct. text_eq ct.name c) ds) (sym n) ∙ h)
  ]

  pub names-start :
      (c : Text) → any (λ ct. text_eq ct.name c) cs ≡ true → has_key c (container_names cs) ≡ true
  unfolding container_names
  names-start c h = starts_of cs c (insert_all-has [] (map named cs)) h

abbrev pub print_entry : Text × List Part → Text × Text
print_entry (k, ps) = (k, print ps)

module _ {V : Type 0} (run : Run V) where
  abbrev pub fill_entry : Text × List Part → Text × Text
  fill_entry (k, ps) = (k, fill run ps)

  env_of-fill :
      (inv : Invocation V) (ts : List (Text × List Part))
      → All (λ t. IsTemplate (t.1)) ts
      → All (λ t. All (Resolves run) (holes (t.1))) ts
      → env_of inv run (map print_entry ts) ≡ entries (map fill_entry ts)
  unfolding env_of
  env_of-fill inv [] _ _ = refl
  env_of-fill inv ((k, ps) ∷ ts) (h, hs) (r, rs) =
      ap (push_entry inv k (env_of inv run (map print_entry ts))) (substitute-fill run ps h r)
      ∙ ap (λ env. push_entry inv k env (ok (fill run ps))) (env_of-fill inv ts hs rs)

spec_names :
    {V : Type 0} (inv : Invocation V) (env : List (Text × Text)) (cs : List Container)
    → All (λ d. (spec_of inv (container_names cs) env d).name ≡ full_name d.name) cs
unfolding spec_of
spec_names inv env cs = All-map (λ d g. ap or_empty g) cs (names-full cs)

-- The sorted containers, where the names tell the roles.
specs_of-planes :
    {V : Type 0} (inv : Invocation V) (cs : List Container) (env : List (Text × Text))
    → All (λ d. All (IsTold d) cs) cs
    → specs_of inv (container_names cs) cs (entries env)
      ≡ built (map (spec_of inv (container_names cs) env) (controls cs ++ datas cs))
unfolding specs_of
specs_of-planes inv [] env _ = refl
specs_of-planes inv (c ∷ cs) env told =
    let f = spec_of inv (container_names (c ∷ cs)) env in
    let keyed = key_of-named (c ∷ cs) f (spec_names inv env (c ∷ cs)) told in
    ap built (
      sort_by_key-planes (key_of (c ∷ cs)) f (c ∷ cs) keyed
      ∙ sym (map-append f (controls (c ∷ cs)) (datas (c ∷ cs))))

module _ {V : Type 0} (reads : Reads V) (inv : Invocation V) (e : Entrant V)
    (valid : validate reads e ≡ []) (runs : is_runnable e.spec.entrant.status ≡ true) (i : ℕ)
    (v : Variant V) (at : get_elem? e.spec.variants i ≡ some v) where
  abbrev pub containers_of : List Container
  containers_of = declared_containers e.spec.envelope

  abbrev pub arm_run : Run V
  arm_run = run_of inv e v containers_of

  build_from-declared :
      (o : Option Envelope)
      → validate_envelope reads.fl reads.cpus o ≡ []
      → build_from inv e v o
        ≡ specs_of inv
            (container_names (declared_containers o))
            (declared_containers o)
            (env_of inv (run_of inv e v (declared_containers o)) (e.spec.env ++ v.env))
  unfolding build_from validate_envelope
  build_from-declared none h = cc
  build_from-declared (some env) h = refl

  module _ (ts : List (Text × List Part)) (vars : e.spec.env ++ v.env ≡ map print_entry ts)
      (templates : All (λ t. IsTemplate (t.1)) ts) (plain : IsPlain arm_run) where
    entries-Resolve : All (λ t. All (Resolves arm_run) (holes (t.1))) ts
    unfolding run_of
    entries-Resolve =
        All_of_get_elem? (λ (t : Text × List Part). All (Resolves arm_run) (holes (t.1))) ts
          (λ k t found.
            let here = ap (λ xs. get_elem? xs k) vars ∙ get_elem?-map print_entry ts k t found in
            let passed = (validate-Passes reads e valid runs).env in
            let template =
              All-get_elem? (λ (t : Text × List Part). IsTemplate (t.1)) ts k templates found in
            let known =
              validate_env-IsKnown {F = reads.fl.F} e.spec.envelope e.spec.env e.spec.variants
                passed i v at k (t.0) (t.1) here template in
            All-map
              (λ inner is.
                known-Resolves arm_run plain containers_of v refl (names-start containers_of) inner
                  is)
              (holes (t.1)) known)

    -- For a variant of a valid descriptor that is runnable, the containers are built and nothing is
    -- refused: every environment variable has its placeholders filled in, and the containers of the
    -- control plane stand before those of the data plane, each in the order of the descriptor; where the
    -- variables are characters and placeholders, no substituted value holds an opening brace, and no
    -- container's name is the end of the full name of a container of the other role.
    pub build_specs-valid :
        All (λ d. All (IsTold d) containers_of) containers_of
        → build_specs inv e v
          ≡ built (
              map
                (spec_of inv (container_names containers_of) (map (fill_entry arm_run) ts))
                (controls containers_of ++ datas containers_of))
    unfolding build_specs
    build_specs-valid told =
        let names = container_names containers_of in
        build_from-declared e.spec.envelope (validate-Passes reads e valid runs).envelope
        ∙ ap (λ xs. specs_of inv names containers_of (env_of inv arm_run xs)) vars
        ∙ ap (specs_of inv names containers_of)
            (env_of-fill arm_run inv ts templates entries-Resolve)
        ∙ specs_of-planes inv containers_of (map (fill_entry arm_run) ts) told
