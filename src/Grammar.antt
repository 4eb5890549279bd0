-- ===== src/Grammar.antt =====
-- The regular expressions that several modules share, as tests on texts: `id`, `feature`, `sha256`,
-- `reference` and `timestamp` of packages/runtime/src/domain/repair-loop/artifact.ts and
-- packages/runtime/src/domain/workflow/decision.ts.
use kratos_harness.Common.{
  ℕ, suc, ◌+◌, Bool, true, false, ◌&&◌, ◌||◌, not, [], ◌∷◌, Text, codes, leb, length, all, any,
  is_empty, is_lower, is_upper, is_digit, is_alphanumeric, is_control, ◌==◌, nat_eq, if◌then◌else◌,
  starts_with, ◌≡◌, refl,
}

-- `[a-zA-Z0-9._:-]`
abbrev pub id_character : ℕ → Bool
id_character c = is_alphanumeric c || c == b'.' || c == b'_' || c == b':' || c == b'-'

-- `/^[a-zA-Z0-9][a-zA-Z0-9._:-]{0,127}$/u`
unfoldable pub is_id : Text → Bool
is_id [] = false
is_id (c ∷ s) = is_alphanumeric c && all id_character s && leb (length s) 127

-- `/^[a-z0-9][a-z0-9-]{0,63}$/u`
unfoldable pub is_feature : Text → Bool
is_feature [] = false
is_feature (c ∷ s) =
    (is_lower c || is_digit c)
    && all (λ d. is_lower d || is_digit d || d == b'-') s
    && leb (length s) 63

-- `/^[a-f0-9]{64}$/u`
unfoldable pub is_sha256 : Text → Bool
is_sha256 s = length s == 64 && all (λ c. (leb b'a' c && leb c b'f') || is_digit c) s

-- `/[\u0000-\u001f\u007f]/u`
abbrev pub has_control : Text → Bool
has_control = any is_control

-- A line terminator, which `.` does not match.
abbrev is_line_end : ℕ → Bool
is_line_end c = c == 10 || c == 13 || c == 8232 || c == 8233

-- `^(?!.*\\)` fails: a backslash stands before every line terminator.
line_has_backslash : Text → Bool
line_has_backslash [] = false
line_has_backslash (c ∷ s) =
    let later = line_has_backslash s in
    if c == 92 then true else if is_line_end c then false else later

-- `\.\.(?:\/|$)` matches here.
parent_here : Text → Bool
parent_here (a ∷ b ∷ []) = a == b'.' && b == b'.'
parent_here (a ∷ b ∷ c ∷ _) = a == b'.' && b == b'.' && c == b'/'
parent_here _ = false

-- `.*\/\.\.(?:\/|$)` matches here.
parent_after_slash : Text → Bool
unfolding parent_here
parent_after_slash [] = false
parent_after_slash (c ∷ s) =
    let later = parent_after_slash s in
    if c == b'/' && parent_here s then true else if is_line_end c then false else later

-- `^(?!.*(?:^|\/)\.\.(?:\/|$))` fails.
line_has_parent : Text → Bool
unfolding parent_after_slash
line_has_parent s = parent_here s || parent_after_slash s

-- `^[A-Za-z]:[\\/]`
has_drive : Text → Bool
has_drive (a ∷ b ∷ c ∷ _) = (is_lower a || is_upper a) && b == b':' && (c == 92 || c == b'/')
has_drive _ = false

-- `[a-z0-9+.-]*:\/\/`
scheme_rest : Text → Bool
scheme_rest [] = false
scheme_rest (c ∷ s) =
    let later = scheme_rest s in
    if c == b':'
    then starts_with s (codes "//")
    else if is_lower c || is_digit c || c == b'+' || c == b'.' || c == b'-'
    then later
    else false

-- `^[a-z][a-z0-9+.-]*:\/\/`
has_scheme : Text → Bool
unfolding scheme_rest
has_scheme [] = false
has_scheme (c ∷ s) = is_lower c && scheme_rest s

abbrev is_high : ℕ → Bool
is_high c = leb 0xd800 c && leb c 0xdbff

abbrev is_low : ℕ → Bool
is_low c = leb 0xdc00 c && leb c 0xdfff

-- How many code points the `u` flag sees: a high surrogate and the low one after it are one.
code_points : Bool → Text → ℕ
code_points after_high [] = 0
code_points after_high (c ∷ s) =
    let paired = code_points false s in
    let alone = code_points (is_high c) s in if after_high && is_low c then paired else suc alone

-- `reference`
unfoldable pub is_reference : Text → Bool
unfolding line_has_backslash line_has_parent has_drive has_scheme code_points
is_reference s =
    not (starts_with s (codes "/"))
    && not (has_drive s)
    && not (line_has_backslash s)
    && not (line_has_parent s)
    && not (has_scheme s)
    && not (has_control s)
    && leb 1 (code_points false s)
    && leb (code_points false s) 1024

-- `\d{1,9}Z$`, with the number of digits before
fraction_end : ℕ → Text → Bool
fraction_end n [] = false
fraction_end n (c ∷ s) =
    let later = fraction_end (n + 1) s in
    if is_digit c then later else c == b'Z' && is_empty s && leb 1 n && leb n 9

-- `(?:\.\d{1,9})?Z$`
time_end : Text → Bool
unfolding fraction_end
time_end [] = false
time_end (c ∷ s) = if c == b'.' then fraction_end 0 s else c == b'Z' && is_empty s

abbrev between : ℕ → ℕ → ℕ → Bool
between lo hi c = leb lo c && leb c hi

-- `0[1-9]|1[0-2]`
is_month : ℕ → ℕ → Bool
is_month a b = (a == b'0' && between b'1' b'9' b) || (a == b'1' && between b'0' b'2' b)

-- `0[1-9]|[12]\d|3[01]`
is_day : ℕ → ℕ → Bool
is_day a b =
    (a == b'0' && between b'1' b'9' b)
    || (between b'1' b'2' a && is_digit b)
    || (a == b'3' && between b'0' b'1' b)

-- `[01]\d|2[0-3]`
is_hour : ℕ → ℕ → Bool
is_hour a b = (between b'0' b'1' a && is_digit b) || (a == b'2' && between b'0' b'3' b)

-- `[0-5]\d`
is_sixtieth : ℕ → ℕ → Bool
is_sixtieth a b = between b'0' b'5' a && is_digit b

-- `timestamp`, the date
is_date : Text → (Text → Bool) → Bool
unfolding is_month is_day
is_date (y1 ∷ y2 ∷ y3 ∷ y4 ∷ h1 ∷ m1 ∷ m2 ∷ h2 ∷ d1 ∷ d2 ∷ s) k =
    all is_digit (y1 ∷ y2 ∷ y3 ∷ y4 ∷ [])
    && h1 == b'-'
    && is_month m1 m2
    && h2 == b'-'
    && is_day d1 d2
    && k s
is_date _ k = false

-- `timestamp`, the time of the day
is_time : Text → Bool
unfolding is_hour is_sixtieth time_end
is_time (t ∷ h1 ∷ h2 ∷ c1 ∷ m1 ∷ m2 ∷ c2 ∷ s1 ∷ s2 ∷ s) =
    t == b'T'
    && is_hour h1 h2
    && c1 == b':'
    && is_sixtieth m1 m2
    && c2 == b':'
    && is_sixtieth s1 s2
    && time_end s
is_time _ = false

-- `timestamp`
unfoldable pub is_timestamp : Text → Bool
unfolding is_date is_time
is_timestamp s = is_date s is_time

abbrev moment : Text
moment = codes "2026-02-29T23:59:07.125Z"

is_timestamp_tests :
    (is_timestamp moment ≡ true)
    × (is_timestamp (codes "2026-13-01T00:00:00Z") ≡ false)
    × (is_timestamp (codes "2026-01-01T00:00:00.Z") ≡ false)
unfolding is_timestamp
is_timestamp_tests = (refl, refl, refl)

is_reference_tests :
    (is_reference (codes ".brain/a..b/c.json") ≡ true)
    × (is_reference (codes "a/../b") ≡ false)
    × (is_reference (codes "http://x") ≡ false)
    × (is_reference (codes "c:/x") ≡ false)
    × (is_reference (codes "a/..") ≡ false)
unfolding is_reference
is_reference_tests = (refl, refl, refl, refl, refl)
