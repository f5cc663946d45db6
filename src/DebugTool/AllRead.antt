-- ===== src/DebugTool/AllRead.antt =====
-- applets/DebugTool/DebugTool.c: the dialog of Ctrl+I calls a function only when all its numbers were read.
use betawise.Base.{
  ℕ, suc, ◌+◌, ◌<◌, ◌≡◌, ◌≢◌, inl, inr, refl, sym, arith, ◌∙◌, ap, List, [], ◌∷◌, ◌++◌, map, Option,
  none, some, length, drop, length-append, false, Bool-cases, if◌then◌else◌, u8, leb, ltb,
  is_negative8, ◌==◌,
}
use mathlib.Core.List.{append_assoc, append-nil}
use betawise.Keys.{key_esc}
use betawise.Os.{Os, Event, History, dialog_init, dialog_add_item}
use betawise.DebugTool.Dump.{Machine, Viewer}
use betawise.DebugTool.Prompt.{read_number}
use betawise.DebugTool.Dialog.{
  unread, id_of, on_call, call_args, add_items, run_dialog, first_invalid, call_with, call_all,
  dialog_round, buffer_count, input_address,
}

-- The ids of the items that were added since the dialog was made, in order.
abbrev pub added_ids : History → List ℕ
added_ids [] = []
added_ids (dialog_init a b c d ∷ h) = []
added_ids (dialog_add_item text len marker id key ∷ h) = added_ids h ++ (id ∷ [])
added_ids (_ ∷ h) = added_ids h

-- DialogGetItemId answers the id that the item was added with; the first item is number 1.
abbrev pub AnswersIds : Os → Type 0
AnswersIds os =
    (h : History) (before after : List ℕ) (id : ℕ)
    → added_ids h ≡ before ++ (id ∷ after)
    → os.dialog_item_id (Event.dialog_get_item_id (length before + 1) ∷ h) ≡ id

abbrev ids : List (Option ℕ) → List ℕ
ids = map id_of

length-map-some : (xs : List ℕ) → length (map (λ x. some x) xs) ≡ length xs
length-map-some [] = refl
length-map-some (x ∷ xs) = omega (arith, length-map-some xs)

-- The seven numbers make the arguments of a call.
call_args-reads :
    (xs : List ℕ)
    → length xs ≡ buffer_count
    → (r : ℕ × List ℕ) × (call_args (map (λ x. some x) xs) ≡ some r)
call_args-reads (s0 ∷ s1 ∷ s2 ∷ s3 ∷ s4 ∷ s5 ∷ s6 ∷ []) h =
    ((s0, s2 ∷ s4 ∷ s6 ∷ s1 ∷ s3 ∷ s5 ∷ []), refl)
call_args-reads (s0 ∷ s1 ∷ s2 ∷ s3 ∷ s4 ∷ s5 ∷ s6 ∷ s7 ∷ xs) h = absurd (omega arith)
call_args-reads (s0 ∷ s1 ∷ s2 ∷ s3 ∷ s4 ∷ s5 ∷ []) h = absurd (omega arith)
call_args-reads (s0 ∷ s1 ∷ s2 ∷ s3 ∷ s4 ∷ []) h = absurd (omega arith)
call_args-reads (s0 ∷ s1 ∷ s2 ∷ s3 ∷ []) h = absurd (omega arith)
call_args-reads (s0 ∷ s1 ∷ s2 ∷ []) h = absurd (omega arith)
call_args-reads (s0 ∷ s1 ∷ []) h = absurd (omega arith)
call_args-reads (s0 ∷ []) h = absurd (omega arith)
call_args-reads [] h = absurd (omega arith)

module _ (m : Machine) where
  add_items-ids :
      (i : ℕ) (bs : List (List ℕ)) (v : Viewer)
      → added_ids (add_items m i bs v).1.console.history
        ≡ added_ids v.console.history ++ ids (add_items m i bs v).0
  unfolding add_items
  add_items-ids i [] v = sym (append-nil _)
  add_items-ids i (b ∷ bs) v =
      let n = (read_number m (input_address m.addresses.dialog_buffers i) (drop 1 b) v).0 in
      add_items-ids (i + 1) bs _ ∙ append_assoc (added_ids v.console.history) (id_of n ∷ []) _

  add_items-length :
      (i : ℕ) (bs : List (List ℕ)) (v : Viewer) → length (add_items m i bs v).0 ≡ length bs
  unfolding add_items
  add_items-length i [] v = refl
  add_items-length i (b ∷ bs) v = ap suc (add_items-length (i + 1) bs _)

  first_invalid_step :
      (more choice : ℕ) (v : Viewer)
      → m.os.dialog_item_id (Event.dialog_get_item_id choice ∷ v.console.history) ≡ 0
      → first_invalid m (suc more) choice v
        ≡ first_invalid m more (choice + 1) (on_call m (Event.dialog_get_item_id choice) v)
  unfolding first_invalid
  first_invalid_step more choice v e = ground arith

  -- When no item from `before` on is found invalid, their numbers were all read.
  first_invalid-reads :
      AnswersIds m.os
      → (ns : List (Option ℕ)) (before after : List ℕ) (v : Viewer)
      → added_ids v.console.history ≡ before ++ (ids ns ++ after)
      → length before + length ns < (first_invalid m (length ns) (length before + 1) v).0
      → (xs : List ℕ) × (ns ≡ map (λ x. some x) xs)
  unfolding first_invalid
  first_invalid-reads answers [] before after v e h = ([], refl)
  first_invalid-reads answers (none ∷ ns) before after v e h =
      let q : m.os.dialog_item_id (Event.dialog_get_item_id (length before + 1) ∷ v.console.history)
          ≡ 1 =
        answers v.console.history before (ids ns ++ after) 1 e in
      absurd (ground arith)
  first_invalid-reads answers (some n ∷ ns) before after v e h =
      let q : m.os.dialog_item_id (Event.dialog_get_item_id (length before + 1) ∷ v.console.history)
          ≡ 0 =
        answers v.console.history before (ids ns ++ after) 0 e in
      let asked = on_call m (Event.dialog_get_item_id (length before + 1)) v in
      let next : length (before ++ (0 ∷ [])) ≡ length before + 1 = length-append before (0 ∷ []) in
      let found : (first_invalid m (suc (length ns)) (length before + 1) v).0
          ≡ (first_invalid m (length ns) (length (before ++ (0 ∷ [])) + 1) asked).0 =
        ap (λ r. r.0) (first_invalid_step (length ns) (length before + 1) v q)
        ∙ ap (λ (k : ℕ). (first_invalid m (length ns) (k + 1) asked).0) (sym next) in
      let (xs, reads) =
        first_invalid-reads answers ns (before ++ (0 ∷ [])) after asked
          (e ∙ sym (append_assoc before (0 ∷ []) (ids ns ++ after))) (omega arith) in
      (n ∷ xs, ap (λ (l : List (Option ℕ)). some n ∷ l) reads)

  -- The dialog's items are its buffers and then the item "all", whose id is 0.
  run_dialog-ids :
      (choice : ℕ) (v : Viewer)
      → added_ids (run_dialog m choice v).2.console.history
        ≡ ids (run_dialog m choice v).0 ++ (0 ∷ [])
  unfolding run_dialog
  run_dialog-ids choice v = ap (λ (l : List ℕ). l ++ (0 ∷ [])) (add_items-ids 0 v.buffers _)

  run_dialog-length :
      (choice : ℕ) (v : Viewer) → length (run_dialog m choice v).0 ≡ length v.buffers
  unfolding run_dialog
  run_dialog-length choice v = add_items-length 0 v.buffers _

  valid_items-read :
      AnswersIds m.os
      → (ns : List (Option ℕ)) (v : Viewer) → added_ids v.console.history ≡ ids ns ++ (0 ∷ [])
      → length ns ≡ buffer_count
      → buffer_count < (first_invalid m buffer_count 1 v).0
      → (r : ℕ × List ℕ) × (call_args ns ≡ some r)
  valid_items-read answers ns v e seven h =
      let count : (first_invalid m buffer_count 1 v).0 ≡ (first_invalid m (length ns) 1 v).0 =
        ap (λ (k : ℕ). (first_invalid m k 1 v).0) (sym seven) in
      let (xs, reads) = first_invalid-reads answers ns [] (0 ∷ []) v e (omega arith) in
      let (r, args) =
        call_args-reads xs
          (sym (length-map-some xs) ∙ ap (λ (l : List (Option ℕ)). length l) (sym reads) ∙ seven) in
      (r, ap call_args reads ∙ args)

  call_all-reads :
      AnswersIds m.os
      → (key : ℕ) (ns : List (Option ℕ)) (v : Viewer)
      → added_ids v.console.history ≡ ids ns ++ (0 ∷ [])
      → length ns ≡ buffer_count
      → call_all m key ns v ≢ unread
  unfolding call_all call_with
  call_all-reads answers key ns v e seven bad =
      let found = first_invalid m buffer_count 1 v in
      elim (Bool-cases (leb found.0 buffer_count)) [
        | inl wrong ↦ ground arith
        | inr valid ↦
            let (r, all) = valid_items-read answers ns v e seven (ground arith) in ground arith
      ]

  -- With seven buffers, and a ROM that answers the ids that the dialog's items were added with, a round
  -- of the dialog never ends in a call with a number that was not read: the seven words of `stack` that
  -- the call uses were all written.
  pub dialog_round-reads :
      AnswersIds m.os
      → (choice : ℕ) (v : Viewer) → length v.buffers ≡ buffer_count
      → dialog_round m choice v ≢ unread
  unfolding dialog_round
  dialog_round-reads answers choice v seven bad =
      let ran = run_dialog m choice v in
      let asked = on_call m Event.dialog_get_choice ran.2 in
      let picked = u8 (m.os.dialog_choice asked.console.history) in
      elim (Bool-cases (ran.1 == key_esc)) [
        | inl escape ↦ ground arith
        | inr chosen ↦
            elim (Bool-cases (if is_negative8 picked then false else ltb buffer_count picked)) [
              | inl call ↦
                  let q : call_all m ran.1 ran.0 asked ≡ unread = ground arith in
                  call_all-reads answers ran.1 ran.0 asked (run_dialog-ids choice v)
                    (run_dialog-length choice v ∙ seven) q
              | inr edit ↦ ground arith
            ]
      ]
