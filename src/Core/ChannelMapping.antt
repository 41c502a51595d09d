-- ===== src/Core/ChannelMapping.antt =====
-- crates/core/src/channel_mapping.rs, and `PreampAddress` of types.rs: a mapping between two
-- channels resolved into mappings between objects, by matching role texts.
use dante_babel_box.Prelude.{
  ℕ, ◌≤◌, ◌<◌, ◌^◌, String, Bool, ◌&&◌, Option, none, some, List, [], ◌∷◌, ◌++◌, ◌≡◌, arith, leb,
  if◌then◌else◌,
}
use dante_babel_box.Prelude.Text.{codes, decimal}
use dante_babel_box.Oca.{OcaObjectDescriptor}
use dante_babel_box.Core.Router.{Mapping}
use dante_babel_box.Core.ChannelScheme.{
  role, role_suffix, descriptor, descriptors_for_channels, gain_ono, phantom_ono,
}
use dante_babel_box.Core.ChannelScheme.Descriptors.{find_settable, find_gain, find_phantom}

pub record PreampAddress : Type 0 where
  pub device_id : String
  pub channel : ℕ

pub record ChannelMapping : Type 0 where
  pub from : PreampAddress
  pub to : PreampAddress
  pub bidirectional : Bool

-- `format!("Ch {} {}", channel, suffix)`
abbrev pub role_text : ℕ → List ℕ → List ℕ
role_text channel suffix = codes "Ch " ++ (decimal channel ++ (codes " " ++ suffix))

-- The body of the `filter_map`: a field that either side lacks is skipped.
unfoldable pub resolve_field :
    ChannelMapping → List OcaObjectDescriptor → List OcaObjectDescriptor → List ℕ → Option Mapping
resolve_field m from_descriptors to_descriptors suffix =
    elim (find_settable (role_text m.from.channel suffix) from_descriptors) [
      | none ↦ none
      | some f ↦ elim (find_settable (role_text m.to.channel suffix) to_descriptors) [
        | none ↦ none
        | some t ↦ some (record {
          from = record { device_id = m.from.device_id; ono = f.ono };
          to = record { device_id = m.to.device_id; ono = t.ono };
          bidirectional = m.bidirectional;
        })
      ]
    ]

abbrev cons? : Option Mapping → List Mapping → List Mapping
cons? none ms = ms
cons? (some m) ms = m ∷ ms

unfoldable pub resolve :
    ChannelMapping → List OcaObjectDescriptor → List OcaObjectDescriptor → List Mapping
unfolding resolve_field
resolve m from_descriptors to_descriptors =
    cons? (resolve_field m from_descriptors to_descriptors (codes "Gain"))
      (cons? (resolve_field m from_descriptors to_descriptors (codes "Phantom")) [])

-- The link between two fields of the two channels.
abbrev link : ChannelMapping → ℕ → ℕ → Mapping
link m f t = record {
  from = record { device_id = m.from.device_id; ono = f };
  to = record { device_id = m.to.device_id; ono = t };
  bidirectional = m.bidirectional;
}

-- Between two devices of the shared scheme a channel mapping becomes a link of the two gains and
-- one of the two phantoms, if both devices have the channel, and nothing otherwise.
pub resolve_scheme :
    (m : ChannelMapping) (from_channels to_channels : ℕ)
    → 1 ≤ m.from.channel
    → m.from.channel < 2 ^ 16
    → 1 ≤ m.to.channel
    → m.to.channel < 2 ^ 16
    → from_channels < 2 ^ 16
    → to_channels < 2 ^ 16
    → resolve m (descriptors_for_channels from_channels) (descriptors_for_channels to_channels) ≡ (
        if leb m.from.channel from_channels && leb m.to.channel to_channels
        then link m (gain_ono m.from.channel) (gain_ono m.to.channel)
          ∷ link m (phantom_ono m.from.channel) (phantom_ono m.to.channel)
          ∷ []
        else [])
unfolding resolve role role_suffix descriptor
resolve_scheme m n k f1 f2 t1 t2 hn hk = ground (
  arith,
  find_gain n m.from.channel f1 f2 hn,
  find_gain k m.to.channel t1 t2 hk,
  find_phantom n m.from.channel f1 f2 hn,
  find_phantom k m.to.channel t1 t2 hk,
)
