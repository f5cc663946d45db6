-- ===== src/DebugTool/Samples.antt =====
-- applets/DebugTool/DebugTool.c: a machine whose memory reads as 0x5A, and a viewer of 8 rows on it.
use betawise.Base.{
  ℕ, ◌+◌, ◌-◌, ◌^◌, ◌≡◌, ◌∙◌, ap, List, ◌++◌, length, get_or, refl, arith, inr, some, true, false,
  [], ◌∷◌, set, replicate,
}
use betawise.Keys.{key_enter}
use betawise.Os.{Os, History, dialog_get_item_id}
use betawise.DebugTool.AllRead.{added_ids, AnswersIds}
use betawise.Samples.{rom, screen, ascii_lower, linked}
use betawise.DebugTool.Number.Reads.{LowersX}
use betawise.DebugTool.Dump.{nibble_hi, Machine, Viewer}
use betawise.DebugTool.Moves.{InView}
use betawise.DebugTool.Redraw.{PrintsHex}
use betawise.DebugTool.Invariant.{IsSane, HoldsBytes}

-- Memory reads as 0x5A, and can be written.
abbrev pub machine : Machine
machine = record {
  os = rom;
  tolower = ascii_lower;
  hex_byte = λ c. b'5' ∷ b'A' ∷ b' ' ∷ [];
  hex_address = λ a. replicate 9 b'0';
  hex_address_seven = λ a. [];
  print_call = λ values c. c;
  print_result = λ value c. c;
  text_box = λ h buffer len max. record {
    exit_key = key_enter;
    buffer = b'8' ∷ set buffer 0 b'7';
    len = 2;
  };
  stack_bytes = replicate 16 0xFF;
  run_code = λ f args v. (0, v);
  addresses = linked;
  writable = λ a. true;
}

-- The cursor is on the last byte of the last row, and the window ends where memory does.
abbrev pub last_byte : Viewer
last_byte = record {
  address = 2 ^ 32 - 64;
  prev_address = 0x4321;
  raw_sys_call = 0;
  mode = nibble_hi;
  cursor = 63;
  rows_per_screen = 8;
  bytes_per_screen = 64;
  is_as3000 = false;
  buffers = [];
  memory = λ a. some 0x5A;
  console = screen;
}

pub last_byte-InView : InView last_byte
last_byte-InView = record {
  some_rows = omega arith;
  rows_fit = omega arith;
  bytes_eq = refl;
  cursor_in = omega arith;
  aligned = refl;
  in_memory = omega arith;
}

pub ascii-LowersX : LowersX ascii_lower
ascii-LowersX c = ground arith

pub machine-PrintsHex : PrintsHex machine
machine-PrintsHex = record {
  of_byte = λ c h. (omega arith, refl);
  of_address = λ a. (omega arith, refl);
}

pub last_byte-HoldsBytes : HoldsBytes last_byte.memory
last_byte-HoldsBytes a b e = ground arith

pub last_byte-IsSane : IsSane last_byte
last_byte-IsSane = record {
  in_view = last_byte-InView;
  rows = inr refl;
  prev_fits = omega arith;
  bytes = last_byte-HoldsBytes;
}

-- The ids of the items that were added.
abbrev pub answer_id : History → ℕ
answer_id (dialog_get_item_id n ∷ h) = get_or (added_ids h) (n - 1) 0
answer_id _ = 0

get_or_at :
    (before after : List ℕ) (id : ℕ) → get_or (before ++ (id ∷ after)) (length before) 0 ≡ id
get_or_at [] after id = refl
get_or_at (x ∷ before) after id = get_or_at before after id

pub answer_id-AnswersIds : (os : Os) → AnswersIds (record os { dialog_item_id = answer_id })
answer_id-AnswersIds os h before after id e =
    let first : length before + 1 - 1 ≡ length before = omega arith in
    ap (λ (i : ℕ). get_or (added_ids h) i 0) first
    ∙ ap (λ (l : List ℕ). get_or l (length before) 0) e
    ∙ get_or_at before after id

abbrev pub seven_buffers : Viewer
seven_buffers = record last_byte { buffers = replicate 7 (b'!' ∷ b'1' ∷ replicate 14 0) }
