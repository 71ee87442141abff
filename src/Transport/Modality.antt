-- ===== src/Transport/Modality.antt =====
-- `detectModality` of src/channels/modality.js: what a message of the messaging service carries.
use nvidia_omoda.Prelude.{ℕ, String, Option, none, some}

pub record Media : Type 0 where
  pub file_id : String
  pub mime_type : Option String
  pub duration : Option ℕ

-- A part that is missing is `none`; `text` is one only if it is a text.
pub record Message : Type 0 where
  pub text : Option String
  pub voice : Option Media
  pub audio : Option Media
  pub video_note : Option Media
  pub video : Option Media

pub data Detected : Type 0 where
  written unsupported : Detected
  spoken filmed : Media → Detected

abbrev pub either_media {ℓ} : {A : Type ℓ} → Option A → Option A → Option A
either_media (some a) o = some a
either_media none o = o

-- An audio file counts as a voice note, and a text hides whatever else the message has.
unfoldable pub detect_modality : Message → Detected
detect_modality m = elim m.text [
  | some t ↦ written
  | none ↦ elim (either_media m.voice m.audio) [
    | some v ↦ spoken v
    | none ↦ elim (either_media m.video_note m.video) [ some v ↦ filmed v | none ↦ unsupported ]
  ]
]
