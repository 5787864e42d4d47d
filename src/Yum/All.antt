-- ===== src/Yum/All.antt =====
-- `get_all_updates` of check_yum.py.
pub mod Agreement
use Prim.Native.String.{[], ◌∷◌}
use nagios_plugins.Base.{
  ℕ, suc, ◌+◌, code, String, Bool, true, false, not, ◌&&◌, ◌||◌, Option, none, some, List, [], ◌∷◌,
  ◌==◌, ltb, leb, if◌then◌else◌, length, drop,
}
use nagios_plugins.Text.{
  ◌&◌, contains, starts_with, split, split_on, join, lead, nonempty, is_space,
}
use nagios_plugins.Text.Decimal.{show, is_digit}
use nagios_plugins.Regex as Regex
use nagios_plugins.Regex.{
  Re, bol, eol, lit, one, star, plus, alt, all_of, any_of, re_match, re_search, found,
}
use nagios_plugins.Nagios.{
  warning_status, unknown_status, Outcome, returned, exited, item, when, ◌>>=◌, ◌>>◌,
}
use nagios_plugins.Yum.Returncode.{end}
use nagios_plugins.Yum.Command.{Tester, Host, yum, run}

abbrev pub support_msg : String
support_msg =
    "Please make sure you have upgraded to the latest version from https://github.com/HariSekhon/Nagios-Plugins. If the problem persists, please raise a ticket at https://github.com/HariSekhon/Nagios-Plugins/issues with the full -vvv output"

-- `text.split("\n\n")`
unfoldable pub split_sections : String → List String
split_sections [] = "" ∷ []
split_sections (c ∷ []) = (c ∷ []) ∷ []
split_sections (c ∷ d ∷ s) =
    let cut = split_sections s in
    let kept = split_sections (d ∷ s) in
    if code c == 10 && code d == 10 then "" ∷ cut else lead c kept

-- Loading\s+".+"\s+plugin
abbrev re_loading : Re
re_loading = all_of (
    lit "Loading"
    ∷ plus is_space
    ∷ lit "\""
    ∷ plus Regex.any
    ∷ lit "\""
    ∷ plus is_space
    ∷ lit "plugin"
    ∷ [])

unfoldable pub known_signature : String → Bool
known_signature section =
    contains "Setting up repositories" section
    || contains "Loaded plugins: " section
    || contains "Last metadata expiration check" section
    || contains "Updating Subscription Management repositories" section
    || found (re_search re_loading section)

-- the test of the output's signature; the first section may be missing
unfoldable pub check_signature : Bool → List String → Outcome (Unit {0})
check_signature no_cache_update sections =
    let warn =
      end warning_status
        ("Yum output signature does not match current known format. " & support_msg) in
    if ltb 3 (length sections)
    then warn
    else if no_cache_update
    then returned tt
    else (do section ← item 0 sections; when (not (known_signature section)) warn)

-- a line that names a package
unfoldable pub is_package : String → Bool
is_package line =
    ltb 1 (length (split line))
    && not (starts_with line " ")
    && not (contains "Obsoleting Packages" line)

abbrev pub count_packages : List String → ℕ
count_packages [] = 0
count_packages (line ∷ lines) =
    if is_package line then suc (count_packages lines) else count_packages lines

-- `num_packages`
unfoldable pub packages_in : Bool → List String → ℕ
packages_in no_cache_update sections =
    if length sections == 1 && not no_cache_update
    then 0
    else count_packages (split_on b'\n' (join "\n" (drop 1 sections)))

-- ^Security: kernel-.+ is an installed security update
abbrev pub re_kernel_security_update : Re
re_kernel_security_update =
    all_of
      (bol ∷ lit "Security: kernel-" ∷ plus Regex.any ∷ lit " is an installed security update" ∷ [])

-- ^Security: kernel-.+ is the currently running version
abbrev pub re_kernel_update : Re
re_kernel_update =
    all_of (
      bol ∷ lit "Security: kernel-" ∷ plus Regex.any ∷ lit " is the currently running version" ∷ [])

abbrev re_arch : Re
re_arch = any_of (
    all_of (lit "i" ∷ one (λ c. leb b'3' c && leb c b'6') ∷ lit "86" ∷ [])
    ∷ lit "x86_64"
    ∷ lit "noarch"
    ∷ [])

-- ^.+\.(i[3456]86|x86_64|noarch)\s+.+\s+.+$
abbrev re_package_format : Re
re_package_format = all_of (
    bol
    ∷ plus Regex.any
    ∷ lit "."
    ∷ re_arch
    ∷ plus is_space
    ∷ plus Regex.any
    ∷ plus is_space
    ∷ plus Regex.any
    ∷ eol
    ∷ [])

unfoldable pub is_kernel_security : String → Bool
is_kernel_security line = found (re_match re_kernel_security_update line)

unfoldable pub is_kernel_running : String → Bool
is_kernel_running line = found (re_match re_kernel_update line)

unfoldable pub is_package_format : String → Bool
is_package_format line = found (re_match re_package_format line)

-- The second count, with the variables `obsoleting_packages` and `count`.
unfoldable pub verify : Bool → ℕ → List String → Outcome ℕ
verify obsoleting count [] = returned count
verify obsoleting count (line ∷ lines) =
    let next = verify obsoleting count lines in
    let obsolete = verify true count lines in
    let counted = verify obsoleting (if is_package_format line then count + 1 else count) lines in
    if contains " excluded " line
    then next
    else if obsoleting && starts_with line " "
    then next
    else if contains "Obsoleting Packages" line
    then obsolete
    else if is_kernel_security line
    then end warning_status "Kernel security update is installed but requires a reboot"
    else if is_kernel_running line
    then next
    else counted

unfoldable pub get_all_updates : Tester → Host → Outcome ℕ
get_all_updates t h = do
  output ← run t h (yum & " check-update")
  let sections = nonempty (split_sections (join "\n" output))
  check_signature t.no_cache_update sections
  let num_packages = packages_in t.no_cache_update sections
  count ← verify false 0 output
  when (not (count == num_packages)) (
      end unknown_status (
        "Error parsing package information, inconsistent package count ("
        & show count
        & " count vs "
        & show num_packages
        & " num packages), yum output may have changed. "
        & support_msg))
  returned num_packages
