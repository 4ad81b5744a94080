-- ===== src/Validate/Complete.antt =====
-- Trees that the walk of harness/src/validate.rs has nothing to report of.
use spate_benchmark.Prelude.{
  ℕ, ◌+◌, true, false, Option, none, some, List, [], ◌∷◌, ◌++◌, map, Text, ◌≡◌, refl, text_eq, any,
  All, Bool-cases, inl, inr, ap, subst, sym, ◌∙◌,
}
use spate_benchmark.Prelude.Strings.{is_blank}
use spate_benchmark.Report.{Report}
use spate_benchmark.Validate.{
  Site, Problem, defect, Summary, State, File, valid, seen_at, duplicates, read_line, visit_line,
  visit_lines, visit_read, visit_file, visit_files, start, finish, results_are_valid,
}
use spate_benchmark.Validate.Fresh.{keys, after, Fresh}
use spate_benchmark.Prelude.{append-nil_iff}
use spate_benchmark.Validate.Rules.{IsPublishable, check_record-IsPublishable}
use spate_benchmark.Validate.Accepted.{
  cons_record, append_records, records_in, records_read, records_of, visit_read-Accepted,
}

none-seen_at :
    (id : Text) (seen : List (Text × Site))
    → any (λ key. text_eq key id) (keys seen) ≡ false
    → seen_at id seen ≡ none
unfolding seen_at
none-seen_at id [] h = refl
none-seen_at id ((key, at) ∷ rest) h = elim (Bool-cases (text_eq key id)) [
  | inl here ↦ let bad : true ≡ false = rw here at h in cc
  | inr other ↦ rw other (none-seen_at id rest (rw other at h))
]

module _ {F V : Type 0} where
  Fresh-split :
      (ids : List Text) (rs ts : List (Report F V))
      → Fresh ids (rs ++ ts)
      → Fresh ids rs × Fresh (after rs ids) ts
  Fresh-split ids [] ts h = (tt, h)
  Fresh-split ids (r ∷ rs) ts (new_id, h) =
      let (a, b) = Fresh-split (r.run_id ∷ ids) rs ts h in ((new_id, a), b)

  All-split :
      (rs ts : List (Report F V))
      → All IsPublishable (rs ++ ts)
      → All IsPublishable rs × All IsPublishable ts
  All-split [] ts h = (tt, h)
  All-split (r ∷ rs) ts (p, h) = let (a, b) = All-split rs ts h in ((p, a), b)

module _ {F V : Type 0} (parse : Text → Option (Report F V)) where
  cons_record-some :
      (o : Option (Report F V)) (p : Option (List (Report F V))) (rs : List (Report F V))
      → cons_record parse o p ≡ some rs
      → (r : Report F V) × (ts : List (Report F V)) × (o ≡ some r) × (p ≡ some ts) × (r ∷ ts ≡ rs)
  cons_record-some none p rs h = cc
  cons_record-some (some r) none rs h = cc
  cons_record-some (some r) (some ts) rs h = (r, ts, refl, refl, cc)

  append_records-some :
      (o p : Option (List (Report F V))) (rs : List (Report F V))
      → append_records parse o p ≡ some rs
      → (ss : List (Report F V)) × (ts : List (Report F V)) × (o ≡ some ss)
        × (p ≡ some ts)
        × (ss ++ ts ≡ rs)
  append_records-some none p rs h = cc
  append_records-some (some ss) none rs h = cc
  append_records-some (some ss) (some ts) rs h = (ss, ts, refl, refl, cc)

  read_line-clean :
      (st : State) (at : Site) (r : Report F V)
      → st.problems ≡ []
      → IsPublishable r
      → any (λ key. text_eq key r.run_id) (keys st.seen) ≡ false
      → (read_line parse st at (some r)).problems ≡ []
  unfolding read_line duplicates
  read_line-clean st at r h p fresh = (append-nil_iff _ _).1 (
    (append-nil_iff _ _).1 (h, ap (duplicates at r.run_id) (none-seen_at r.run_id st.seen fresh)),
    ap (map (defect at r.run_id)) ((check_record-IsPublishable r).1 p),
  )

  visit_line-blank :
      (st : State) (path : Text) (n : ℕ) (line : Text)
      → is_blank line ≡ true
      → visit_line parse st path n line ≡ st
  unfolding visit_line
  visit_line-blank st path n line h = rw h refl

  visit_line-filled :
      (st : State) (path : Text) (n : ℕ) (line : Text) (r : Report F V)
      → is_blank line ≡ false
      → parse line ≡ some r
      → visit_line parse st path n line
        ≡ read_line parse st (record { path = path; line = n }) (some r)
  unfolding visit_line
  visit_line-filled st path n line r h parsed = rw (h, parsed) refl

  visit_lines-clean :
      (st : State) (path : Text) (n : ℕ) (lines : List Text) (rs : List (Report F V))
      → st.problems ≡ []
      → records_in parse lines ≡ some rs
      → All IsPublishable rs
      → Fresh (keys st.seen) rs
      → (visit_lines parse st path n lines).problems ≡ []
  unfolding visit_lines read_line
  visit_lines-clean st path n [] rs h e ps fresh = h
  visit_lines-clean st path n (line ∷ lines) rs h e ps fresh =
      let Quiet : State → Type 0 = λ s. (visit_lines parse s path (n + 1) lines).problems ≡ [] in
      elim (Bool-cases (is_blank line)) [
        | inl blank ↦
            subst Quiet (sym (visit_line-blank st path n line blank))
              (visit_lines-clean st path (n + 1) lines rs h (rw blank at e) ps fresh)
        | inr filled ↦
            let e1 : cons_record parse (parse line) (records_in parse lines) ≡ some rs =
              rw filled at e in
            let (r, ts, parsed, rest, whole) =
              cons_record-some (parse line) (records_in parse lines) rs e1 in
            let (p, qs) = subst (All IsPublishable) (sym whole) ps in
            let (new_id, later) = subst (Fresh (keys st.seen)) (sym whole) fresh in
            let at : Site = record { path = path; line = n } in
            subst Quiet (sym (visit_line-filled st path n line r filled parsed)) (
              visit_lines-clean (read_line parse st at (some r)) path (n + 1) lines ts
                (read_line-clean st at r h p new_id) rest qs later)
      ]

  visit_read-clean :
      (st : State) (path : Text) (o : Option (List Text)) (rs : List (Report F V))
      → st.problems ≡ []
      → records_read parse o ≡ some rs
      → All IsPublishable rs
      → Fresh (keys st.seen) rs
      → (visit_read parse st path o).problems ≡ []
  unfolding visit_read
  visit_read-clean st path none rs h e ps fresh = cc
  visit_read-clean st path (some lines) rs h e ps fresh =
      visit_lines-clean st path 1 lines rs h e ps fresh

  same_records :
      (o : Option (List (Report F V))) (rs ts : List (Report F V))
      → o ≡ some rs
      → o ≡ some ts
      → rs ≡ ts
  same_records o rs ts h e = cc

  visit_files-clean :
      (st : State) (fs : List File) (rs : List (Report F V))
      → st.problems ≡ []
      → records_of parse fs ≡ some rs
      → All IsPublishable rs
      → Fresh (keys st.seen) rs
      → (visit_files parse st fs).problems ≡ []
  unfolding visit_files visit_file
  visit_files-clean st [] rs h e ps fresh = h
  visit_files-clean st (f ∷ fs) rs h e ps fresh =
      let (ss, ts, here, rest, whole) =
        append_records-some (records_read parse f.lines) (records_of parse fs) rs e in
      let (p, q) = All-split ss ts (subst (All IsPublishable) (sym whole) ps) in
      let (x, y) =
        Fresh-split (keys st.seen) ss ts (subst (Fresh (keys st.seen)) (sym whole) fresh) in
      let opened : State = record {
        problems = st.problems;
        summary = record { files = st.summary.files + 1; records = st.summary.records };
        seen = st.seen;
      } in
      let quiet = visit_read-clean opened f.path f.lines ss h here p x in
      let (us, found, a) = visit_read-Accepted parse opened f.path f.lines quiet in
      let known : keys (visit_read parse opened f.path f.lines).seen ≡ after ss (keys st.seen) =
        a.seen ∙ ap (λ rs. after rs (keys st.seen)) (same_records _ us ss found here) in
      visit_files-clean (visit_file parse st f) fs ts quiet rest q
        (subst (λ ids. Fresh ids ts) (sym known) y)

  finish-nil : (ps : List Problem) (s : Summary) → ps ≡ [] → finish ps s ≡ valid s
  unfolding finish
  finish-nil [] s h = refl
  finish-nil (p ∷ ps) s h = cc

  -- A tree that can be read whole, whose records are publishable and have distinct ids, is accepted.
  pub results_are_valid_complete :
      (files : List File) (rs : List (Report F V))
      → records_of parse files ≡ some rs
      → All IsPublishable rs
      → Fresh [] rs
      → (summary : Summary) × (results_are_valid parse files ≡ valid summary)
  unfolding results_are_valid
  results_are_valid_complete files rs e ps fresh =
      let st = visit_files parse start files in
      (
        st.summary,
        finish-nil st.problems st.summary (visit_files-clean start files rs refl e ps fresh),
      )
