-- ===== src/Validate/Accepted.antt =====
-- What the walk of harness/src/validate.rs says of a tree that it accepts.
use spate_benchmark.Prelude.{
  ℕ, ◌+◌, Option, none, some, List, [], ◌∷◌, ◌++◌, map, Text, ◌≡◌, refl, arith, if◌then◌else◌, All,
  All-append, Bool-cases, inl, inr, length, length-append, ap, subst, ◌∙◌,
}
use spate_benchmark.Prelude.Strings.{is_blank}
use spate_benchmark.Report.{Report}
use spate_benchmark.Validate.{
  check_record, Site, Problem, Summary, State, File, valid, duplicates, read_line, visit_line,
  visit_lines, visit_read, visit_file, visit_files, start, finish, results_are_valid,
}
use spate_benchmark.Validate.Fresh.{keys, after, Fresh, Fresh-append, after-append, seen_at-none}
use spate_benchmark.Prelude.{append-nil_iff}
use spate_benchmark.Validate.Rules.{IsPublishable, check_record-IsPublishable}

map-nil : {A B : Type 0} (f : A → B) (xs : List A) → map f xs ≡ [] → xs ≡ []
map-nil f [] h = refl
map-nil f (x ∷ xs) h = cc

duplicates-nil : (at : Site) (id : Text) (o : Option Site) → duplicates at id o ≡ [] → o ≡ none
unfolding duplicates
duplicates-nil at id none h = refl
duplicates-nil at id (some first) h = cc

finish-valid :
    (problems : List Problem) (counted summary : Summary)
    → finish problems counted ≡ valid summary
    → (problems ≡ []) × (counted ≡ summary)
unfolding finish
finish-valid [] counted summary h = (refl, cc)
finish-valid (p ∷ ps) counted summary h = cc

module _ {F V : Type 0} where
  -- The walk from `st` to `st'` read these records and found nothing to report.
  pub record Accepted (st st' : State) (rs : List (Report F V)) : Type 0 where
    pub problems : st.problems ≡ []
    pub clean : All IsPublishable rs
    pub fresh : Fresh (keys st.seen) rs
    pub seen : keys st'.seen ≡ after rs (keys st.seen)
    pub records : st'.summary.records ≡ st.summary.records + length rs
    pub files : st'.summary.files ≡ st.summary.files

  Accepted-compose :
      (st0 st1 st2 : State) (rs ts : List (Report F V))
      → Accepted st0 st1 rs
      → Accepted st1 st2 ts
      → Accepted st0 st2 (rs ++ ts)
  Accepted-compose st0 st1 st2 rs ts a b = record {
    problems = a.problems;
    clean = All-append IsPublishable rs ts a.clean b.clean;
    fresh = Fresh-append (keys st0.seen) rs ts a.fresh (subst (λ ids. Fresh ids ts) a.seen b.fresh);
    seen = b.seen ∙ ap (after ts) a.seen ∙ after-append (keys st0.seen) rs ts;
    records = omega (arith, a.records, b.records, length-append rs ts);
    files = b.files ∙ a.files;
  }

  Accepted-refl : (st : State) → st.problems ≡ [] → Accepted st st []
  Accepted-refl st h = record {
    problems = h;
    clean = tt;
    fresh = tt;
    seen = refl;
    records = omega arith;
    files = refl;
  }

module _ {F V : Type 0} (parse : Text → Option (Report F V)) where
  abbrev pub cons_record :
      Option (Report F V) → Option (List (Report F V)) → Option (List (Report F V))
  cons_record none rest = none
  cons_record (some r) none = none
  cons_record (some r) (some rs) = some (r ∷ rs)

  abbrev pub append_records :
      Option (List (Report F V)) → Option (List (Report F V)) → Option (List (Report F V))
  append_records none rest = none
  append_records (some rs) none = none
  append_records (some rs) (some ts) = some (rs ++ ts)

  -- The records of the lines that are not blank, where every one of them parses.
  abbrev pub records_in : List Text → Option (List (Report F V))
  records_in [] = some []
  records_in (line ∷ lines) =
      let rest = records_in lines in if is_blank line then rest else cons_record (parse line) rest

  abbrev pub records_read : Option (List Text) → Option (List (Report F V))
  records_read none = none
  records_read (some lines) = records_in lines

  -- The records of a tree, where every file can be read and every line parses.
  abbrev pub records_of : List File → Option (List (Report F V))
  records_of [] = some []
  records_of (f ∷ fs) = append_records (records_read f.lines) (records_of fs)

  read_line-Accepted :
      (st : State) (at : Site) (o : Option (Report F V))
      → (read_line parse st at o).problems ≡ []
      → (r : Report F V) × (o ≡ some r) × Accepted st (read_line parse st at o) (r ∷ [])
  unfolding read_line
  read_line-Accepted st at none h = let (_, bad) = (append-nil_iff st.problems _).0 h in cc
  read_line-Accepted st at (some r) h =
      let (kept, reported) = (append-nil_iff (st.problems ++ duplicates at r.run_id _) _).0 h in
      let (problems, repeated) = (append-nil_iff st.problems _).0 kept in
      let unseen = seen_at-none r.run_id st.seen (duplicates-nil at r.run_id _ repeated) in
      (
        r,
        refl,
        record {
          problems = problems;
          clean = ((check_record-IsPublishable r).0 (map-nil _ (check_record r) reported), tt);
          fresh = (unseen, tt);
          seen = refl;
          records = omega arith;
          files = refl;
        },
      )

  visit_line-Accepted :
      (st : State) (path : Text) (n : ℕ) (line : Text) (lines : List Text)
      (rest : Option (List (Report F V))) (st' : State) (rs : List (Report F V))
      → rest ≡ some rs
      → Accepted (visit_line parse st path n line) st' rs
      → (ts : List (Report F V)) × ((if is_blank line then rest else cons_record (parse line) rest)
          ≡ some ts)
        × Accepted st st' ts
  unfolding visit_line
  visit_line-Accepted st path n line lines rest st' rs e a = elim (Bool-cases (is_blank line)) [
    | inl blank ↦ (rs, rw blank e, rw blank at a)
    | inr filled ↦
        let at : Site = record { path = path; line = n } in
        let later : Accepted (read_line parse st at (parse line)) st' rs = rw filled at a in
        let (r, parsed, here) = read_line-Accepted st at (parse line) later.problems in
        (
          r ∷ rs,
          rw (filled, parsed, e) refl,
          Accepted-compose st (read_line parse st at (parse line)) st' (r ∷ []) rs here later,
        )
  ]

  pub visit_lines-Accepted :
      (st : State) (path : Text) (n : ℕ) (lines : List Text)
      → (visit_lines parse st path n lines).problems ≡ []
      → (rs : List (Report F V)) × (records_in lines ≡ some rs)
        × Accepted st (visit_lines parse st path n lines) rs
  unfolding visit_lines
  visit_lines-Accepted st path n [] h = ([], refl, Accepted-refl st h)
  visit_lines-Accepted st path n (line ∷ lines) h =
      let st1 = visit_line parse st path n line in
      let (rs, e, a) = visit_lines-Accepted st1 path (n + 1) lines h in
      visit_line-Accepted st path n line lines (records_in lines)
        (visit_lines parse st1 path (n + 1) lines) rs e a

  pub visit_read-Accepted :
      (st : State) (path : Text) (o : Option (List Text))
      → (visit_read parse st path o).problems ≡ []
      → (rs : List (Report F V)) × (records_read o ≡ some rs)
        × Accepted st (visit_read parse st path o) rs
  unfolding visit_read
  visit_read-Accepted st path none h = let (_, bad) = (append-nil_iff st.problems _).0 h in cc
  visit_read-Accepted st path (some lines) h = visit_lines-Accepted st path 1 lines h

  -- The walk of whole files, which counts them.
  pub record Walked (st st' : State) (fs : List File) : Type 0 where
    pub rs : List (Report F V)
    pub problems : st.problems ≡ []
    pub read : records_of fs ≡ some rs
    pub clean : All IsPublishable rs
    pub fresh : Fresh (keys st.seen) rs
    pub records : st'.summary.records ≡ st.summary.records + length rs
    pub files : st'.summary.files ≡ st.summary.files + length fs

  pub visit_files-Walked :
      (st : State) (fs : List File)
      → (visit_files parse st fs).problems ≡ []
      → Walked st (visit_files parse st fs) fs
  unfolding visit_files visit_file
  visit_files-Walked st [] h = record {
    rs = [];
    problems = h;
    read = refl;
    clean = tt;
    fresh = tt;
    records = omega arith;
    files = omega arith;
  }
  visit_files-Walked st (f ∷ fs) h =
      let w = visit_files-Walked (visit_file parse st f) fs h in
      let (rs, e, a) = visit_read-Accepted _ f.path f.lines w.problems in
      record {
        rs = rs ++ w.rs;
        problems = a.problems;
        read = rw (e, w.read) refl;
        clean = All-append IsPublishable rs w.rs a.clean w.clean;
        fresh =
            Fresh-append (keys st.seen) rs w.rs a.fresh
              (subst (λ ids. Fresh ids w.rs) a.seen w.fresh);
        records = omega (arith, a.records, w.records, length-append rs w.rs);
        files = omega (arith, a.files, w.files);
      }

  -- A tree that is accepted can be read whole: every file is readable and every line that is not blank
  -- parses; every record is publishable, no two have the same id, and the summary counts the files
  -- and the records.
  pub results_are_valid-clean :
      (files : List File) (summary : Summary)
      → results_are_valid parse files ≡ valid summary
      → (rs : List (Report F V)) × (records_of files ≡ some rs)
        × All IsPublishable rs
        × Fresh [] rs
        × (summary.files ≡ length files)
        × (summary.records ≡ length rs)
  unfolding results_are_valid
  results_are_valid-clean files summary h =
      let st = visit_files parse start files in
      let (clean, counted) = finish-valid st.problems st.summary summary h in
      let w = visit_files-Walked start files clean in
      (
        w.rs,
        w.read,
        w.clean,
        w.fresh,
        omega (arith, ap (λ s. s.files) counted, w.files),
        omega (arith, ap (λ s. s.records) counted, w.records),
      )
