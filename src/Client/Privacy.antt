-- ===== src/Client/Privacy.antt =====
-- crates/precall-client/src/privacy.rs, and the part of crates/precall-client/src/run.rs that
-- decides about a frame and answers control messages. `to_lowercase` is a parameter; the static
-- PAUSED is a field of the state that the functions pass on.
pub mod Laws
use pre_call.Prelude.{
  ℕ, suc, ◌+◌, ◌-◌, Text, Bool, true, false, ◌&&◌, ◌||◌, List, [], ◌∷◌, ◌++◌, map, any, Option,
  none, some, bytes_eq, length, drop, ltb, ◌==◌, if◌then◌else◌,
}
use pre_call.Prelude.Int.{ℤ}
use pre_call.Client.Meta.{WindowMeta}
use pre_call.Proto.Metadata.{
  WebRecord, FileRecord, ControlMessage, pause, resume, set_exclusions, heartbeat, panic_wipe,
  goodbye,
}

-- `str::ends_with`
unfoldable pub ends_with : Text → Text → Bool
ends_with s suffix =
    if ltb (length s) (length suffix)
    then false
    else bytes_eq (drop (length s - length suffix) s) suffix

pub record Exclusions : Type 0 where
  pub processes : List Text
  pub domains : List Text

pub data DropReason : Type 0 where
  paused protected_window excluded_process excluded_domain no_window : DropReason

module _ (lowercase : Text → Text) where
  unfoldable pub new : List Text → List Text → Exclusions
  new processes domains = record {
    processes = map lowercase processes;
    domains = map lowercase domains;
  }

  unfoldable pub is_process : Text → Text → Bool
  unfolding ends_with
  is_process n p = bytes_eq n p || (ends_with n (b'\\' ∷ p) || ends_with n (b'/' ∷ p))

  unfoldable pub process_excluded : Exclusions → Text → Bool
  unfolding is_process
  process_excluded ex name = any (is_process (lowercase name)) ex.processes

  unfoldable pub is_domain : Text → Text → Bool
  unfolding ends_with
  is_domain h d = bytes_eq h d || ends_with h (b'.' ∷ d)

  unfoldable pub domain_excluded : Exclusions → Text → Bool
  unfolding is_domain
  domain_excluded ex host = any (is_domain (lowercase host)) ex.domains

  unfoldable pub check : Bool → Option WindowMeta → Exclusions → Bool → Option DropReason
  unfolding process_excluded domain_excluded
  check is_paused meta ex protected_hwnd = if is_paused then some paused else elim meta [
    | none ↦ some no_window
    | some m ↦
        if protected_hwnd
        then some protected_window
        else if process_excluded ex m.process_name
        then some excluded_process
        else if any (λ (w : WebRecord). domain_excluded ex w.domain) m.urls
        then some excluded_domain
        else none
  ]

-- What the capture loop keeps: the counters, the hash of the last frame and the times of the
-- frames sent.
pub record Loop : Type 0 where
  pub is_paused : Bool
  pub last_hash : ℕ
  pub frames_skipped_unchanged : ℕ
  pub frames_skipped_privacy : ℕ
  pub pending : List ℕ

pub data Verdict : Type 0 where
  unchanged send : Verdict
  dropped : DropReason → Verdict

unfoldable pub skip_private : DropReason → Loop → Loop
skip_private no_window l = l
skip_private _ l = record l { frames_skipped_privacy = suc l.frames_skipped_privacy }

module _ (lowercase : Text → Text) where
  judge : Option DropReason → Loop → Verdict × Loop
  unfolding skip_private
  judge none l = (send, l)
  judge (some reason) l = (dropped reason, skip_private reason l)

  -- A capture tick with a frame, up to the encoder: the hash of the frame, its dirty regions, the
  -- window as `foreground_meta` gives it, and whether it is protected.
  unfoldable pub capture_tick : ℕ → ℕ → WindowMeta → Bool → Exclusions → Loop → Verdict × Loop
  unfolding check judge
  capture_tick hash dirty_regions meta protected ex l =
      if hash == l.last_hash && dirty_regions == 0
      then (unchanged, record l { frames_skipped_unchanged = suc l.frames_skipped_unchanged })
      else judge (check lowercase l.is_paused (some meta) ex protected)
          (record l { last_hash = hash })

-- `pending.push_back(now)`, with the front dropped above 64.
unfoldable pub push_time : ℕ → List ℕ → List ℕ
push_time now pending =
    let pushed = pending ++ (now ∷ []) in if ltb 64 (length pushed) then drop 1 pushed else pushed

-- The answer to an inbound control message; `none` leaves the session.
unfoldable pub on_control : ControlMessage → Loop → Option Loop
on_control pause l = some (record l { is_paused = true })
on_control (resume _) l = some (record l { is_paused = false })
on_control panic_wipe l = some (record l { pending = []; is_paused = true })
on_control (goodbye _) l = none
on_control (set_exclusions _ _) l = some l
on_control (heartbeat _ _ _) l = some l
