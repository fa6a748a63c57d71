-- ===== src/Proto/Channel.antt =====
-- crates/precall-proto/src/channel.rs: channel identifiers. A name is the list of its bytes.
use pre_call.Prelude.{
  ℕ, ◌≡◌, ◌↔◌, refl, ap, ◌∙◌, List, [], ◌∷◌, map, Option, none, some, arith, ◌==◌, bytes_eq,
  bytes_eq→eq, codes, ascii_upper, if◌then◌else◌,
}

pub data ChannelId : Type 0 where
  gfx_rdp pc_meta pc_audio pc_ctrl pc_query : ChannelId

unfoldable pub name : ChannelId → List ℕ
name gfx_rdp = codes "GFXRDP"
name pc_meta = codes "PCMETA"
name pc_audio = codes "PCAUDIO"
name pc_ctrl = codes "PCCTRL"
name pc_query = codes "PCQUERY"

-- The match of `from_name` on the upper-case name.
unfoldable pub of_upper : List ℕ → Option ChannelId
of_upper s =
    if bytes_eq s (codes "GFXRDP")
    then some gfx_rdp
    else if bytes_eq s (codes "PCMETA")
    then some pc_meta
    else if bytes_eq s (codes "PCAUDIO")
    then some pc_audio
    else if bytes_eq s (codes "PCCTRL")
    then some pc_ctrl
    else if bytes_eq s (codes "PCQUERY")
    then some pc_query
    else none

unfoldable pub from_name : List ℕ → Option ChannelId
unfolding of_upper
from_name s = of_upper (map ascii_upper s)

unfoldable pub from_u8 : ℕ → Option ChannelId
from_u8 v =
    if v == 0x01
    then some gfx_rdp
    else if v == 0x02
    then some pc_meta
    else if v == 0x03
    then some pc_audio
    else if v == 0x04
    then some pc_ctrl
    else if v == 0x05
    then some pc_query
    else none

abbrev pub all : List ChannelId
all = gfx_rdp ∷ pc_meta ∷ pc_audio ∷ pc_ctrl ∷ pc_query ∷ []

-- `u8::from(c)`, the discriminant.
unfoldable pub to_u8 : ChannelId → ℕ
to_u8 gfx_rdp = 0x01
to_u8 pc_meta = 0x02
to_u8 pc_audio = 0x03
to_u8 pc_ctrl = 0x04
to_u8 pc_query = 0x05

-- A byte is read as a channel exactly when it is the byte that the channel is written as.
pub from_u8_iff : (v : ℕ) (c : ChannelId) → (from_u8 v ≡ some c) ↔ (v ≡ to_u8 c)
unfolding from_u8 to_u8
from_u8_iff v gfx_rdp = (λ h. ground arith, λ h. ground arith)
from_u8_iff v pc_meta = (λ h. ground arith, λ h. ground arith)
from_u8_iff v pc_audio = (λ h. ground arith, λ h. ground arith)
from_u8_iff v pc_ctrl = (λ h. ground arith, λ h. ground arith)
from_u8_iff v pc_query = (λ h. ground arith, λ h. ground arith)

pub from_u8-to_u8 : (c : ChannelId) → from_u8 (to_u8 c) ≡ some c
from_u8-to_u8 c = (from_u8_iff (to_u8 c) c).1 refl

of_upper-name : (c : ChannelId) → of_upper (name c) ≡ some c
unfolding of_upper name bytes_eq
of_upper-name gfx_rdp = refl
of_upper-name pc_meta = refl
of_upper-name pc_audio = refl
of_upper-name pc_ctrl = refl
of_upper-name pc_query = refl

of_upper→eq : (s : List ℕ) (c : ChannelId) → of_upper s ≡ some c → s ≡ name c
unfolding of_upper name
of_upper→eq s c h = ground (
  arith,
  bytes_eq→eq s (codes "GFXRDP"),
  bytes_eq→eq s (codes "PCMETA"),
  bytes_eq→eq s (codes "PCAUDIO"),
  bytes_eq→eq s (codes "PCCTRL"),
  bytes_eq→eq s (codes "PCQUERY"),
)

-- A text is read as a channel's name exactly when it is that name in upper or lower case letters.
pub from_name_iff :
    (s : List ℕ) (c : ChannelId) → (from_name s ≡ some c) ↔ (map ascii_upper s ≡ name c)
unfolding from_name
from_name_iff s c = (λ h. of_upper→eq (map ascii_upper s) c h, λ h. ap of_upper h ∙ of_upper-name c)
