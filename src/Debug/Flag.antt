-- ===== src/Debug/Flag.antt =====
-- The macros of debug.h: whether a file's debug output is on, asked at each call or kept from the
-- first one, and what the macros print.
pub mod Kept
use progs.Prelude.{
  ℕ, ◌≡◌, refl, ap, ◌∙◌, Bool, true, false, ◌&&◌, not, ltb, ◌==◌, if◌then◌else◌, is_set, of_bool,
  List, [], ◌∷◌, ◌++◌,
}
use progs.Debug.{Debugged, is_debugged}

-- The two static variables, which each file has for itself.
pub record Cache : Type 0 where
  pub is_debugged_first : Bool
  pub is_debugged_result : ℕ

abbrev pub unasked : Cache
unasked = record { is_debugged_first = true; is_debugged_result = 0 }

-- `is_debugged` with CACHE_DEBUG_FLAG: the value of the expression, and the variables after it.
unfoldable pub cached_is_debugged : (file : List ℕ) → Debugged → Cache → ℕ × Cache
cached_is_debugged file d cache =
    if cache.is_debugged_first
    then (let result = is_debugged file d in
        (
          of_bool (is_set result),
          record { is_debugged_first = false; is_debugged_result = result },
        ))
    else (of_bool (is_set cache.is_debugged_result), cache)

-- What goes to stderr: formatted text, with or without the file and the line, or raw bytes.
pub data Printed : Type 0 where
  raw : (text : List ℕ) → Printed
  located : (file : List ℕ) (line : ℕ) (text : List ℕ) → Printed

-- `isprint`, in the C locale.
abbrev pub is_print : ℕ → Bool
is_print c = ltb 31 c && ltb c 127

-- `__debug_raw_binary`, on the characters from `data` on.
unfoldable pub debug_raw_binary_text : List ℕ → List ℕ
debug_raw_binary_text [] = []
debug_raw_binary_text (c ∷ s) = (if is_print c then c else b'.') ∷ debug_raw_binary_text s

-- A macro's argument is printed where the file's output is on. `caches` is whether CACHE_DEBUG_FLAG
-- is defined; without DEBUG the macros are empty.
unfoldable pub printed :
    (debugs caches : Bool) → (file : List ℕ) → Debugged → Printed → Cache → List Printed × Cache
unfolding cached_is_debugged
printed debugs caches file d what cache =
    if debugs
    then (if caches
        then (let (on, cache') = cached_is_debugged file d cache in
            ((if is_set on then what ∷ [] else []), cache'))
        else ((if is_set (is_debugged file d) then what ∷ [] else []), cache))
    else ([], cache)

abbrev pub debug_raw :
    (debugs caches : Bool) (file text : List ℕ) → Debugged → Cache → List Printed × Cache
debug_raw debugs caches file text d = printed debugs caches file d (raw text)

abbrev pub debug :
    (debugs caches : Bool) (file : List ℕ) (line : ℕ) (text : List ℕ)
    → Debugged
    → Cache
    → List Printed × Cache
debug debugs caches file line text d = printed debugs caches file d (located file line text)

abbrev pub debug_raw_binary :
    (debugs caches : Bool) (file data' : List ℕ) → Debugged → Cache → List Printed × Cache
debug_raw_binary debugs caches file data' d =
    printed debugs caches file d (raw (debug_raw_binary_text data'))

-- The calls of a macro in one file, each with the list of files as it then is.
abbrev pub all_printed :
    (caches : Bool) (file : List ℕ) → List (Debugged × Printed) → Cache → List Printed
all_printed caches file [] cache = []
all_printed caches file ((d, what) ∷ calls) cache =
    let (out, cache') = printed true caches file d what cache in
    out ++ all_printed caches file calls cache'
