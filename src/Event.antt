-- ===== src/Event.antt =====
-- api/deploymentevent.go: the event that tells of a deployment, with the messages of
-- pkg/event/event.pb.go that it is made of, and pkg/event/timestamp.go. The clock, the numbering
-- and the parsing of a Docker image are parameters.
pub mod Laws
use nais_api.Manifest.{NaisManifest}
use nais_api.Prelude.{Option, String, if◌then◌else◌, none, some, ℕ, ◌*◌, ◌+◌, ◌-◌, ◌/◌, ◌<>◌, ◌==◌}
use nais_api.Prelude.Int.{int32, neg_part, negsuc, pos, pos_part, sub_ℕ, ℤ}
use nais_api.Prelude.Text.{contains_char}
use nais_api.Request.{Deploy}

pub data PlatformType : Type 0 where
  jboss was bpm nais : PlatformType

pub data System : Type 0 where
  aura naisd naiserator : System

pub data RolloutStatus : Type 0 where
  unknown initialized complete : RolloutStatus

-- `Environment` of the messages
pub data EventEnvironment : Type 0 where
  production development : EventEnvironment

pub record ContainerImage : Type 0 where
  pub name : String
  pub tag : String
  pub hash : String

-- timestamp.Timestamp: an int64 and an int32
pub record Timestamp : Type 0 where
  pub seconds : ℤ
  pub nanos : ℤ

-- `platform` is the type of a `Platform` and `deployer` the ident of an `Actor`: their other fields
-- stay empty.
pub record Event : Type 0 where
  pub correlation_id : String
  pub platform : PlatformType
  pub source : System
  pub deployer : String
  pub team : String
  pub rollout_status : RolloutStatus
  pub environment : EventEnvironment
  pub skya_environment : String
  pub namespace : String
  pub cluster : String
  pub application : String
  pub version : String
  pub image : ContainerImage
  pub timestamp : Timestamp

-- The repository and the tag of a parsed image.
pub record Reference : Type 0 where
  pub repository : String
  pub tag : String

-- A time is its distance from 1970 in nanoseconds.
abbrev pub nanos_per_second : ℕ
nanos_per_second = 1000000000

-- t.Unix(), which rounds down
abbrev pub unix : ℤ → ℤ
unix (pos n) = pos (n / nanos_per_second)
unix (negsuc n) = negsuc (n / nanos_per_second)

unfoldable pub convert_timestamp : ℤ → Timestamp
unfolding int32
convert_timestamp t = record { seconds = unix t; nanos = int32 t }

abbrev pub times_second : ℤ → ℤ
times_second (pos n) = pos (n * nanos_per_second)
times_second (negsuc n) = negsuc (n * nanos_per_second + (nanos_per_second - 1))

unfoldable pub plus : ℤ → ℤ → ℤ
plus a b = sub_ℕ (pos_part a + pos_part b) (neg_part a + neg_part b)

-- time.Unix adds the nanoseconds to the seconds, whatever their range.
unfoldable pub get_timestamp_as_time : Timestamp → ℤ
unfolding plus
get_timestamp_as_time s = plus (times_second s.seconds) s.nanos

unfoldable pub environment : Deploy → EventEnvironment
environment r = if r.fasit_environment == "p" then production else development

-- The hash and the tag.
unfoldable pub hashtag : String → String × String
unfolding contains_char
hashtag t = if contains_char ":" t then (t, "") else ("", t)

unfoldable pub container_image : (String → Option Reference) → String → ContainerImage
unfolding hashtag
container_image parse image_name = elim (parse image_name) [
  | none ↦ record { name = ""; tag = ""; hash = "" }
  | some ref ↦
      let (hash, tag) = hashtag ref.tag in record { name = ref.repository; tag = tag; hash = hash }
]

-- The clock gives `now`, and uuid.NewUUID `id`.
unfoldable pub new_deployment_event :
    (String → Option Reference) → ℤ → String → Deploy → NaisManifest → String → Event
unfolding container_image convert_timestamp environment
new_deployment_event parse now id r manifest cluster_name =
    let image = container_image parse (manifest.image <> ":" <> r.version) in
    record {
      correlation_id = id;
      platform = nais;
      source = naisd;
      deployer = r.fasit_username;
      team = manifest.team;
      rollout_status = complete;
      environment = environment r;
      skya_environment = r.fasit_environment;
      namespace = r.namespace;
      cluster = cluster_name;
      application = r.application;
      version = image.tag;
      image = image;
      timestamp = convert_timestamp now;
    }
