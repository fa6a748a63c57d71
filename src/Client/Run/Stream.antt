-- ===== src/Client/Run/Stream.antt =====
-- What the broker's codec reads of a session that still runs.
use pre_call.Prelude.{ℕ, ◌≡◌, List, Option, some, All, ◌∈◌}
use pre_call.Proto.Metadata.{CaptureBatch}
use pre_call.Client.Config.{ClientConfig}
use pre_call.Client.Meta.{Desktop}
use pre_call.Client.Jpeg.{encode_jpeg}
use pre_call.Client.Privacy.{Exclusions}
use pre_call.Client.Run.{Outside, CaptureFrame, Event, tick, Agent, record_of}
use pre_call.Client.Run.Pieces.{Piece, shot, sound, message, Wrote}

-- Some pieces, all of them with a property, lead from one agent to the other.
abbrev Moves : (CaptureBatch → Option (List ℕ)) → (Piece → Type 0) → Agent → Agent → Type 0
Moves to_json Q a b = (ps : List Piece) × Wrote to_json a b ps × All Q ps

-- A screenshot is the JPEG of a frame, and its record is the one of that frame and of the desktop
-- and the time of a tick among these events, under a drawn UUID.
abbrev pub IsMade : Outside → ClientConfig → Exclusions → List Event → Piece → Type 0
IsMade o cfg ex es (shot jpeg w h ts row json) =
    (f : CaptureFrame) × (d : Desktop) × (n : ℕ) × (tick d ts ∈ es)
    × (encode_jpeg o.write_image f.bgra f.width f.height 80 ≡ some jpeg)
    × (w ≡ f.width)
    × (h ≡ f.height)
    × (row ≡ record_of o cfg ex f d (o.uuid n) ts)
IsMade o cfg ex es (sound payload) = Unit
IsMade o cfg ex es (message payload) = Unit
