-- ===== src/Probes/Folder/Contract.antt =====
-- applets/FileSetFolderProbe/FileSetFolderProbe.c and docs/filesetfolder-closure.md: the probe run on a
-- ROM that keeps the documented contract.
use betawise.Base.{
  ℕ, ◌+◌, ◌≤◌, ◌<◌, ◌≡◌, refl, arith, ◌∙◌, ap, bit_and, some, Bool, true, false, ◌==◌, u8, u16,
  is_negative32, ==_refl,
}
use betawise.Probes.Folder.{
  applet_id_alphaword, applet_id_alphaquiz, applet_id_calculator, raw_no_file_namespace,
  raw_invalid_applet, Results, check, reset_results, FileSystem, run_alpha_word_case,
  run_alpha_quiz_case, run_no_file_namespace_case, run_invalid_index_case, find_applets, run_probe,
}

-- The documented table of A1C0: `has_namespace` is an index whose folder can be chosen, `lacks_one` an
-- installed applet with flag 0x40 clear and no files.
pub record Documented {S : Type 0} (fs : FileSystem S) (folder : S → ℕ) (flags : ℕ → ℕ)
    (has_namespace lacks_one : ℕ → Bool) : Type 0 where
  pub accepts :
      (i : ℕ) (s : S)
      → has_namespace i ≡ true
      → (fs.file_set_folder i s).result ≡ folder s
        × ((fs.file_set_folder i s).written ≡ some (flags i))
        × (folder (fs.file_set_folder i s).after ≡ i)
  pub refuses_empty :
      (i : ℕ) (s : S)
      → lacks_one i ≡ true
      → (fs.file_set_folder i s).result ≡ raw_no_file_namespace
        × ((fs.file_set_folder i s).written ≡ some 0)
        × (folder (fs.file_set_folder i s).after ≡ folder s)
  pub refuses_range :
      (i : ℕ) (s : S)
      → 32 ≤ i
      → (fs.file_set_folder i s).result ≡ raw_invalid_applet
        × ((fs.file_set_folder i s).written ≡ some 0)
        × (folder (fs.file_set_folder i s).after ≡ folder s)
  pub in_range : (i : ℕ) → has_namespace i ≡ true → i < 32

-- A check that holds.
passed : (r : Results) → check true r ≡ record r { checks = u16 (r.checks + 1) }
unfolding check
passed r = refl

module _ {S : Type 0} {fs : FileSystem S} {folder : S → ℕ} {flags : ℕ → ℕ}
    {has_namespace lacks_one : ℕ → Bool}
    (d : Documented fs folder flags has_namespace lacks_one) where
  word_case :
      (r : Results) (s : S)
      → has_namespace (folder s) ≡ true
      → has_namespace r.alpha_word_index ≡ true
      → (bit_and (flags r.alpha_word_index) 0x40 == 0) ≡ false
      → ((run_alpha_word_case fs r s).0 ≡ record r {
        alpha_word_flags = flags r.alpha_word_index;
        alpha_word_result = folder s;
        alpha_word_restore_result = r.alpha_word_index;
        checks = u16 (u16 (u16 (r.checks + 1) + 1) + 1);
      })
        × (folder (run_alpha_word_case fs r s).1 ≡ folder s)
  unfolding run_alpha_word_case check
  word_case r s h hw hf =
      let a = fs.file_set_folder r.alpha_word_index s in
      let e = d.accepts r.alpha_word_index s hw in
      let low = d.in_range (folder s) h in
      let neg : is_negative32 (folder s) ≡ false = ground arith in
      let back = d.accepts (folder s) a.after h in
      rw (e.0, e.1, hf, neg, back.0, e.2, back.2, ==_refl r.alpha_word_index) (refl, refl)

  quiz_case :
      (r : Results) (s : S)
      → has_namespace (folder s) ≡ true
      → has_namespace r.alpha_quiz_index ≡ true
      → (bit_and (flags r.alpha_quiz_index) 0x40 == 0) ≡ true
      → ((run_alpha_quiz_case fs r s).0 ≡ record r {
        alpha_quiz_flags = flags r.alpha_quiz_index;
        alpha_quiz_result = folder s;
        alpha_quiz_restore_result = r.alpha_quiz_index;
        checks = u16 (u16 (u16 (r.checks + 1) + 1) + 1);
      })
        × (folder (run_alpha_quiz_case fs r s).1 ≡ folder s)
  unfolding run_alpha_quiz_case check
  quiz_case r s h hq hf =
      let a = fs.file_set_folder r.alpha_quiz_index s in
      let e = d.accepts r.alpha_quiz_index s hq in
      let low = d.in_range (folder s) h in
      let neg : is_negative32 (folder s) ≡ false = ground arith in
      let back = d.accepts (folder s) a.after h in
      rw (e.0, e.1, hf, neg, back.0, e.2, back.2, ==_refl r.alpha_quiz_index) (refl, refl)

  no_files_case :
      (r : Results) (s : S)
      → has_namespace (folder s) ≡ true
      → has_namespace r.alpha_quiz_index ≡ true
      → lacks_one r.calculator_index ≡ true
      → ((run_no_file_namespace_case fs r s).0 ≡ record r {
        no_files_flags = 0;
        no_files_result = raw_no_file_namespace;
        no_files_restore_result = r.alpha_quiz_index;
        checks = u16 (u16 (u16 (u16 (r.checks + 1) + 1) + 1) + 1);
      })
        × (folder (run_no_file_namespace_case fs r s).1 ≡ folder s)
  unfolding run_no_file_namespace_case
  no_files_case r s h hq hc =
      let a = fs.file_set_folder r.alpha_quiz_index s in
      let e = d.accepts r.alpha_quiz_index s hq in
      let low = d.in_range (folder s) h in
      let neg : is_negative32 (folder s) ≡ false = ground arith in
      let b = d.refuses_empty r.calculator_index a.after hc in
      let back = d.accepts (folder s) (fs.file_set_folder r.calculator_index a.after).after h in
      rw (e.0, neg)
        (rw b.0 (
          rw b.1 (
            rw (back.0, b.2, e.2)
              (rw (back.2, ==_refl r.alpha_quiz_index)
                (rw (passed, passed, passed, passed) (refl, refl))))))

  invalid_case :
      (r : Results) (s : S)
      → has_namespace (folder s) ≡ true
      → has_namespace r.alpha_quiz_index ≡ true
      → ((run_invalid_index_case fs r s).0 ≡ record r {
        invalid_flags = 0;
        invalid_result = raw_invalid_applet;
        invalid_restore_result = r.alpha_quiz_index;
        checks = u16 (u16 (u16 (u16 (r.checks + 1) + 1) + 1) + 1);
      })
        × (folder (run_invalid_index_case fs r s).1 ≡ folder s)
  unfolding run_invalid_index_case
  invalid_case r s h hq =
      let a = fs.file_set_folder r.alpha_quiz_index s in
      let e = d.accepts r.alpha_quiz_index s hq in
      let low = d.in_range (folder s) h in
      let neg : is_negative32 (folder s) ≡ false = ground arith in
      let b = d.refuses_range 32 a.after (omega arith) in
      let back = d.accepts (folder s) (fs.file_set_folder 32 a.after).after h in
      rw (e.0, neg)
        (rw b.0 (
          rw b.1 (
            rw (back.0, b.2, e.2)
              (rw (back.2, ==_refl r.alpha_quiz_index)
                (rw (passed, passed, passed, passed) (refl, refl))))))

  abbrev found_at : ℕ → ℕ → ℕ → Results
  found_at word quiz calculator = record reset_results {
    alpha_word_index = word;
    alpha_quiz_index = quiz;
    calculator_index = calculator;
  }

  found_applets :
      (s : S) (word quiz calculator : ℕ)
      → fs.applet_find_by_id applet_id_alphaword s ≡ word
      → fs.applet_find_by_id applet_id_alphaquiz s ≡ quiz
      → fs.applet_find_by_id applet_id_calculator s ≡ calculator
      → 1 ≤ word
      → 1 ≤ quiz
      → 1 ≤ calculator
      → word < 32
      → quiz < 32
      → calculator < 32
      → find_applets fs s ≡ found_at word quiz calculator
  unfolding find_applets
  found_applets s word quiz calculator ew eq ec lw lq lc hw hq hc =
      let w : u8 word ≡ word = omega arith in
      let q : u8 quiz ≡ quiz = omega arith in
      let c : u8 calculator ≡ calculator = omega arith in
      let w0 : (word == 0) ≡ false = ground arith in
      let q0 : (quiz == 0) ≡ false = ground arith in
      let c0 : (calculator == 0) ≡ false = ground arith in rw (ew, eq, ec, w, q, c, w0, q0, c0) refl

  -- On a ROM that keeps the contract and finds the three applets, at indices that are not zero, AlphaWord
  -- with a namespace and flag 0x40, AlphaQuiz with a namespace and without the flag, Calculator with no
  -- namespace: started in a folder that can be chosen, the probe makes 14 checks, none of which fails,
  -- and leaves that folder chosen.
  pub run_probe-passes :
      (s : S) (word quiz calculator : ℕ)
      → has_namespace (folder s) ≡ true
      → fs.applet_find_by_id applet_id_alphaword s ≡ word
      → fs.applet_find_by_id applet_id_alphaquiz s ≡ quiz
      → fs.applet_find_by_id applet_id_calculator s ≡ calculator
      → 1 ≤ word
      → 1 ≤ quiz
      → 1 ≤ calculator
      → calculator < 32
      → has_namespace word ≡ true
      → has_namespace quiz ≡ true
      → lacks_one calculator ≡ true
      → (bit_and (flags word) 0x40 == 0) ≡ false
      → (bit_and (flags quiz) 0x40 == 0) ≡ true
      → ((run_probe fs s).0.checks ≡ 14)
        × ((run_probe fs s).0.failures ≡ 0)
        × (folder (run_probe fs s).1 ≡ folder s)
  unfolding run_probe
  run_probe-passes s word quiz calculator h ew eq ec lw lq lc hc32 hw hq hc fw fq =
      let found =
        found_applets s word quiz calculator ew eq ec lw lq lc (d.in_range word hw)
          (d.in_range quiz hq) hc32 in
      let r1 = run_alpha_word_case fs (found_at word quiz calculator) s in
      let one = word_case (found_at word quiz calculator) s h hw fw in
      let quiz1 : r1.0.alpha_quiz_index ≡ quiz = ap (λ (r : Results). r.alpha_quiz_index) one.0 in
      let h1 = ap has_namespace one.1 ∙ h in
      let r2 = run_alpha_quiz_case fs r1.0 r1.1 in
      let two =
        quiz_case r1.0 r1.1 h1 (ap has_namespace quiz1 ∙ hq)
          (ap (λ (i : ℕ). bit_and (flags i) 0x40 == 0) quiz1 ∙ fq) in
      let quiz2 : r2.0.alpha_quiz_index ≡ quiz =
        ap (λ (r : Results). r.alpha_quiz_index) two.0 ∙ quiz1 in
      let calculator2 : r2.0.calculator_index ≡ calculator =
        ap (λ (r : Results). r.calculator_index) two.0
        ∙ ap (λ (r : Results). r.calculator_index) one.0 in
      let h2 = ap has_namespace two.1 ∙ h1 in
      let r3 = run_no_file_namespace_case fs r2.0 r2.1 in
      let three =
        no_files_case r2.0 r2.1 h2 (ap has_namespace quiz2 ∙ hq) (ap lacks_one calculator2 ∙ hc) in
      let quiz3 : r3.0.alpha_quiz_index ≡ quiz =
        ap (λ (r : Results). r.alpha_quiz_index) three.0 ∙ quiz2 in
      let four =
        invalid_case r3.0 r3.1 (ap has_namespace three.1 ∙ h2) (ap has_namespace quiz3 ∙ hq) in
      rw found (
        omega (
          arith,
          ap (λ (r : Results). r.checks) four.0,
          ap (λ (r : Results). r.checks) three.0,
          ap (λ (r : Results). r.checks) two.0,
          ap (λ (r : Results). r.checks) one.0,
        ),
        ap (λ (r : Results). r.failures) four.0
            ∙ ap (λ (r : Results). r.failures) three.0
            ∙ ap (λ (r : Results). r.failures) two.0
            ∙ ap (λ (r : Results). r.failures) one.0,
        four.1 ∙ three.1 ∙ two.1 ∙ one.1,
      )
