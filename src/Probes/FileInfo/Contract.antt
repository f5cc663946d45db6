-- ===== src/Probes/FileInfo/Contract.antt =====
-- applets/FileGetFileInfoProbe/FileGetFileInfoProbe.c: what a run without a failure says of the ROM.
use betawise.Base.{ℕ, ◌+◌, ◌≤◌, ◌<◌, ◌≡◌, ◌≢◌, ◌↔◌, refl, arith, Bool, true, not, ◌==◌, leb}
use betawise.Probes.FileInfo.{
  file_token_clipboard, poison, Results, check, local_after, FileInfo, check_reply, results_of,
  checked, run_probe,
}

-- A check adds at most one failure, and none if it holds.
check_counts :
    (condition : Bool) (r : Results)
    → r.failures < 100
    → ((check condition r).failures ≤ r.failures + 1)
      × (((check condition r).failures ≡ 0) ↔ ((condition ≡ true) × (r.failures ≡ 0)))
unfolding check
check_counts condition r h = ground arith

reply_counts :
    (base storage size max_size cursor : ℕ) (r : Results)
    → r.failures ≡ 0
    → ((check_reply base storage size max_size cursor r).failures ≤ 7)
      × (((check_reply base storage size max_size cursor r).failures ≡ 0) ↔ (
          (base ≢ 0)
          × (storage ≡ base)
          × (size ≢ poison)
          × (max_size ≢ poison)
          × (cursor ≢ poison)
          × (size ≤ max_size)
          × (cursor ≤ max_size)))
unfolding check_reply
reply_counts base storage size max_size cursor r e =
    let r1 = check (not (base == 0)) r in
    let r2 = check (storage == base) r1 in
    let r3 = check (not (size == poison)) r2 in
    let r4 = check (not (max_size == poison)) r3 in
    let r5 = check (not (cursor == poison)) r4 in
    let r6 = check (leb size max_size) r5 in
    let c1 = check_counts (not (base == 0)) r (omega arith) in
    let c2 = check_counts (storage == base) r1 (omega (arith, c1.0)) in
    let c3 = check_counts (not (size == poison)) r2 (omega (arith, c1.0, c2.0)) in
    let c4 = check_counts (not (max_size == poison)) r3 (omega (arith, c1.0, c2.0, c3.0)) in
    let c5 = check_counts (not (cursor == poison)) r4 (omega (arith, c1.0, c2.0, c3.0, c4.0)) in
    let c6 = check_counts (leb size max_size) r5 (omega (arith, c1.0, c2.0, c3.0, c4.0, c5.0)) in
    let c7 =
      check_counts (leb cursor max_size) r6 (omega (arith, c1.0, c2.0, c3.0, c4.0, c5.0, c6.0)) in
    (
      omega (arith, c1.0, c2.0, c3.0, c4.0, c5.0, c6.0, c7.0),
      ground (arith, c1.1, c2.1, c3.1, c4.1, c5.1, c6.1, c7.1),
    )

-- The probe counts no failure exactly if the first call returns a storage that is not null, stores the
-- same storage, and a size, a maximum and a cursor that are none of them the poison, the size and the
-- cursor being at most the maximum, and if the second call returns the same storage.
pub run_probe-passes_iff :
    {S : Type 0} (info : FileInfo S) (s : S)
    → let a = info.bind file_token_clipboard s in
      ((run_probe info s).0.failures ≡ 0) ↔ (
        ((a.base ≢ 0)
          × (local_after a.storage ≡ a.base)
          × (local_after a.size ≢ poison)
          × (local_after a.max_size ≢ poison)
          × (local_after a.cursor ≢ poison)
          × (local_after a.size ≤ local_after a.max_size)
          × (local_after a.cursor ≤ local_after a.max_size))
        × ((info.unbind file_token_clipboard a.after).0 ≡ a.base))
unfolding run_probe
run_probe-passes_iff info s =
    let a = info.bind file_token_clipboard s in
    let base = (info.unbind file_token_clipboard a.after).0 in
    let reply =
      reply_counts a.base (local_after a.storage) (local_after a.size) (local_after a.max_size)
        (local_after a.cursor) (results_of a) refl in
    let last =
      check_counts (base == a.base) (record (checked a) { unbind_return = base })
        (omega (arith, reply.0)) in
    ground (arith, last.1, reply.1)
