-- ===== src/Yum/Returncode/Laws.antt =====
-- Which return codes of yum let check_yum.py go on.
use nagios_plugins.Base.{String, Bool, false, List, ◌≡◌, ◌↔◌, ◌⊎◌, arith, any, ◌≢◌}
use nagios_plugins.Base.Int.{ℤ, pos, negsuc}
use nagios_plugins.Text.{contains}
use nagios_plugins.Nagios.{returned}
use nagios_plugins.Yum.Returncode.{check_returncode, locked, unexpected, end}

locked-ne-returned : (b : Bool) (output : List String) → locked b output ≢ returned tt
unfolding locked end
locked-ne-returned b output = ground arith

unexpected-ne-returned :
    (b : Bool) (code : ℤ) (output : List String) → unexpected b code output ≢ returned tt
unfolding unexpected end
unexpected-ne-returned b code output = ground arith

-- The plugin goes on exactly when yum returned 100 (updates are available), or 0 with no line that
-- asks for root. With every other code it exits or raises.
pub check_returncode_iff :
    (no_warn_on_lock dnf_exists : Bool) (code : ℤ) (output : List String)
    → (check_returncode no_warn_on_lock dnf_exists code output ≡ returned tt) ↔ (
        (code ≡ pos 100)
        ⊎ ((code ≡ pos 0) × (any (contains "You must run this command as root") output ≡ false)))
unfolding check_returncode end
check_returncode_iff b d (negsuc n) output =
    (λ h. absurd (unexpected-ne-returned d (negsuc n) output h), λ h. ground arith)
check_returncode_iff b d (pos n) output = (
  λ h. ground (arith, locked-ne-returned b output, unexpected-ne-returned d (pos n) output),
  λ h. ground arith,
)
