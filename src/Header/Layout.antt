-- ===== src/Header/Layout.antt =====
-- os3k/os3k.h: where the fields of an applet's header stand in memory, and the font's name in it.
use betawise.Base.{
  ℕ, zero, suc, ◌+◌, ◌-◌, ◌*◌, ◌/◌, ◌%◌, ◌^◌, ◌≤◌, ◌<◌, ◌≡◌, refl, arith, ◌∙◌, ap, List, [], ◌∷◌,
  ◌++◌, length, length-append, drop, replicate, get_or, get_or-append_left, get_or-append_right,
}
use mathlib.Core.Path.{subst}
use betawise.Header.{
  AppletHeader, Built, Language, char_array, header_begin, applet_id, applet_name, applet_font_name,
  applet_info, applet_version, applet_language,
}

-- `APPLET_FONT_NAME_PTR`: the characters from `name[11]` on.
abbrev pub font_name_ptr : AppletHeader → List ℕ
font_name_ptr h = drop 11 h.name

-- The 68000 stores the highest byte first. No field of the structure needs padding before it.
abbrev bytes16 : ℕ → List ℕ
bytes16 n = n / 256 % 256 ∷ n % 256 ∷ []

abbrev bytes32 : ℕ → List ℕ
bytes32 n = n / 2 ^ 24 % 256 ∷ n / 2 ^ 16 % 256 ∷ n / 256 % 256 ∷ n % 256 ∷ []

abbrev pub read16 : List ℕ → ℕ → ℕ
read16 bytes i = get_or bytes i 0 * 256 + get_or bytes (i + 1) 0

abbrev pub read32 : List ℕ → ℕ → ℕ
read32 bytes i = read16 bytes i * 65536 + read16 bytes (i + 2)

length-char_array : (n : ℕ) (str : List ℕ) → length (char_array n str) ≡ n
length-char_array zero str = refl
length-char_array (suc n) [] = ap suc (length-char_array n [])
length-char_array (suc n) (c ∷ str) = ap suc (length-char_array n str)

char_array-nil : (n : ℕ) → char_array n [] ≡ replicate n 0
char_array-nil zero = refl
char_array-nil (suc n) = ap (λ (l : List ℕ). 0 ∷ l) (char_array-nil n)

-- A string that fits is followed by zeros.
char_array-fits :
    (n k : ℕ) (str : List ℕ) → n ≡ length str + k → char_array n str ≡ str ++ replicate k 0
char_array-fits n k [] h = let all : n ≡ k = omega (arith, h) in rw all (char_array-nil k)
char_array-fits zero k (c ∷ str) h = absurd (omega (arith, h))
char_array-fits (suc n) k (c ∷ str) h =
    ap (λ (l : List ℕ). c ∷ l) (char_array-fits n k str (omega (arith, h)))

-- The font's name is found at APPLET_FONT_NAME_PTR as it was given to APPLET_FONT_NAME, with a NUL behind it, if it has at most
-- 24 characters; whatever the macros before it have set.
pub font_name_ptr-applet_font_name :
    (name : List ℕ) (h : AppletHeader)
    → length name ≤ 24
    → font_name_ptr (applet_font_name name h) ≡ name ++ (0 ∷ replicate (24 - length name) 0)
unfolding applet_font_name
font_name_ptr-applet_font_name name h fits =
    char_array-fits 25 (suc (24 - length name)) name (omega arith)

char_array-at :
    (n : ℕ) (str : List ℕ) (k : ℕ) → k < n → get_or (char_array n str) k 0 ≡ get_or str k 0
char_array-at zero str k h = absurd (omega (arith, h))
char_array-at (suc n) [] zero h = refl
char_array-at (suc n) [] (suc k) h = char_array-at n [] k (omega (arith, h))
char_array-at (suc n) (c ∷ str) zero h = refl
char_array-at (suc n) (c ∷ str) (suc k) h = char_array-at n str k (omega (arith, h))

abbrev longs : List ℕ → List ℕ
longs [] = []
longs (n ∷ ns) = bytes32 n ++ longs ns

-- The structure's bytes: from `minAsmVersion` on, from `info` on, from the version on, before the name, and all.
abbrev after_info : AppletHeader → List ℕ
after_info h =
    bytes32 h.min_asm_version ++ (bytes32 h.file_usage ++ (bytes32 h.entry_point ++ longs h.magic))

abbrev info_bytes : AppletHeader → List ℕ
info_bytes h = h.info ++ after_info h

abbrev version_bytes : AppletHeader → List ℕ
version_bytes h =
    h.version_major ∷ h.version_minor ∷ h.version_revision ++ (h.language_id ∷ info_bytes h)

abbrev before_name : AppletHeader → List ℕ
before_name h =
    bytes32 h.signature
    ++ (bytes32 h.rom_usage
        ++ (bytes32 h.ram_usage
            ++ (bytes32 h.settings_offset
                ++ (bytes32 h.flags ++ (bytes16 h.id ++ (h.header_version ∷ h.file_count ∷ []))))))

abbrev pub header_bytes : AppletHeader → List ℕ
header_bytes h = before_name h ++ (h.name ++ version_bytes h)

-- The header as the applets write it.
abbrev pub applet_header : Built → ℕ → List ℕ → List ℕ → Language → AppletHeader
applet_header b id name info language =
    applet_language language
      (applet_version b (applet_info info (applet_name name (applet_id id (header_begin b)))))

behind : (xs ys : List ℕ) (n i : ℕ) → length xs ≡ n → get_or (xs ++ ys) (n + i) 0 ≡ get_or ys i 0
behind xs ys n i e =
    subst (λ (k : ℕ). get_or (xs ++ ys) (k + i) 0 ≡ get_or ys i 0) e (get_or-append_right xs ys i 0)

module _ (h : AppletHeader) (name : length h.name ≡ 36) (revision : length h.version_revision ≡ 1)
    (info : length h.info ≡ 60) where
  after_info-at : (i : ℕ) → get_or (header_bytes h) (124 + i) 0 ≡ get_or (after_info h) i 0
  after_info-at i =
      let rest = h.language_id ∷ info_bytes h in
      let start : 124 + i ≡ 24 + (36 + (2 + (1 + (1 + (60 + i))))) = omega arith in
      ap (λ (k : ℕ). get_or (header_bytes h) k 0) start
      ∙ behind (before_name h) (h.name ++ version_bytes h) 24 (36 + (2 + (1 + (1 + (60 + i))))) refl
      ∙ behind h.name (version_bytes h) 36 (2 + (1 + (1 + (60 + i)))) name
      ∙ behind (h.version_major ∷ h.version_minor ∷ []) (h.version_revision ++ rest) 2
          (1 + (1 + (60 + i))) refl
      ∙ behind h.version_revision rest 1 (1 + (60 + i)) revision
      ∙ behind (h.language_id ∷ []) (info_bytes h) 1 (60 + i) refl
      ∙ behind h.info (after_info h) 60 i info

  header_bytes-length : length (longs h.magic) ≡ 12 → length (header_bytes h) ≡ 0x94
  header_bytes-length twelve = omega (
    arith,
    name,
    revision,
    info,
    twelve,
    length-append h.name (version_bytes h),
    length-append h.version_revision (h.language_id ∷ info_bytes h),
    length-append h.info (after_info h),
  )

-- The header that the macros make of an id of 16 bits, a name and a text of any length, a language, and an entry point of 32
-- bits: it takes 0x94 bytes, and where docs/applet-runtime-api-closure.md says that the system looks for them stand the id
-- (the word at 0x14), the name, cut at 36 characters and filled up with zeros (from 0x18 on), and the entry point (the long
-- word at 0x84).
pub header_bytes-at :
    (b : Built) (id : ℕ) (name info : List ℕ) (language : Language) (k : ℕ)
    → id < 2 ^ 16
    → b.entry < 2 ^ 32
    → k < 36
    → let bytes = header_bytes (applet_header b id name info language) in
      (length bytes ≡ 0x94)
      × (read16 bytes 0x14 ≡ id)
      × (get_or bytes (0x18 + k) 0 ≡ get_or name k 0)
      × (read32 bytes 0x84 ≡ b.entry)
unfolding applet_language applet_version applet_info applet_name applet_id header_begin
header_bytes-at b id name info language k h1 h2 h3 =
    let h = applet_header b id name info language in
    let bytes = header_bytes h in
    let len = length-char_array 36 name in
    let len_info = length-char_array 60 info in
    let len_revision = length-char_array 1 b.revision in
    let in_info = after_info-at h len len_revision len_info in
    (
      header_bytes-length h len len_revision len_info refl,
      omega arith,
      behind (before_name h) (h.name ++ version_bytes h) 24 k refl
          ∙ get_or-append_left (char_array 36 name) (version_bytes h) k 0 (omega (arith, len))
          ∙ char_array-at 36 name k h3,
      omega (arith, in_info 8, in_info 9, in_info 10, in_info 11),
    )
