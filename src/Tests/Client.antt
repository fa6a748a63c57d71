-- ===== src/Tests/Client.antt =====
-- The privacy filter of the client at concrete windows.
use pre_call.Prelude.{◌≡◌, ◌↔◌, Text, codes, false, [], ◌∷◌, none, some, any}
use pre_call.Proto.Metadata.{WebRecord}
use pre_call.Client.Meta.{WindowMeta, blank}
use pre_call.Client.Privacy.{Exclusions, Loop, check, process_excluded, domain_excluded}
use pre_call.Client.Privacy.Laws.{check_iff}

abbrev same : Text → Text
same t = t

abbrev bank : WindowMeta
bank = record blank {
  process_name = codes "browser.exe";
  urls =
      record { domain = codes "www.bank.example"; uri = []; icon_uri = none; properties = none }
      ∷ [];
}

abbrev browser : WindowMeta
browser = record blank { process_name = codes "browser.exe"; urls = [] }

abbrev no_banks : Exclusions
no_banks = record { processes = codes "vault.exe" ∷ []; domains = codes "bank.example" ∷ [] }

abbrev running : Loop
running = record {
  is_paused = false;
  last_hash = 0;
  frames_skipped_unchanged = 0;
  frames_skipped_privacy = 0;
  pending = [];
}

check_iff_example : (check same false (some bank) no_banks false ≡ none) ↔ (
    (false ≡ false)
    × (m : WindowMeta) × (some bank ≡ some m)
    × (false ≡ false)
    × (process_excluded same no_banks m.process_name ≡ false)
    × (any (λ (w : WebRecord). domain_excluded same no_banks w.domain) m.urls ≡ false))
check_iff_example = check_iff same false (some bank) no_banks false
