-- ===== src/Update/Build.antt =====
-- `normalizeBuildID` of frontend/lib/service-worker-update.ts. The script of
-- frontend/lib/build-version-guard.ts has the same function, `normalizeBuild`.
pub mod Again
use lexi_go.Common.{
  ℕ, Bool, true, false, ◌&&◌, ◌||◌, not, Option, none, some, [], ◌∷◌, ◌++◌, Text, codes, leb, ◌==◌,
  if◌then◌else◌, is_nonempty, take, trim,
}
use lexi_go.Common.Decimal.{is_digit}
use lexi_go.Common.Uri.{encode_uri_component, prefix}

abbrev pub is_build_char : ℕ → Bool
is_build_char c =
    (leb 97 c && leb c 122)
    || (leb 65 c && leb c 90)
    || is_digit c
    || (c == 46)
    || (c == 95)
    || (c == 45)

-- `s.replace(/[^a-zA-Z0-9._-]+/g, "-")`; the flag says that a run has begun.
unfoldable pub replace_runs : Bool → Text → Text
replace_runs in_run [] = []
replace_runs in_run (c ∷ s) =
    let kept = c ∷ replace_runs false s in
    let rest = replace_runs true s in
    if is_build_char c then kept else if in_run then rest else 45 ∷ rest

-- `s.replace(/^-+|-+$/g, "")` in its two parts.
unfoldable pub strip_start : Text → Text
strip_start [] = []
strip_start (c ∷ s) = if c == 45 then strip_start s else c ∷ s

unfoldable pub strip_end : Text → Text
strip_end [] = []
strip_end (c ∷ s) =
    let rest = strip_end s in if (c == 45) && not (is_nonempty rest) then [] else c ∷ rest

abbrev pub or_local : Text → Text
or_local [] = codes "local"
or_local (c ∷ s) = c ∷ s

abbrev pub build_characters : Text → Text
build_characters s = strip_end (strip_start (replace_runs false (trim s)))

unfoldable pub normalize_build_id : Text → Text
unfolding replace_runs strip_start strip_end
normalize_build_id s = or_local (take 80 (build_characters s))

-- `value?.…`.
unfoldable pub normalize_missing_build_id : Option Text → Text
unfolding normalize_build_id
normalize_missing_build_id none = codes "local"
normalize_missing_build_id (some s) = normalize_build_id s

unfoldable pub service_worker_script_url : Text → Option Text
unfolding normalize_build_id
service_worker_script_url build_id =
    prefix (codes "/sw.js?build=") (encode_uri_component (normalize_build_id build_id))
