-- ===== src/Kube/Objects.antt =====
-- Sessions through objects, and back.
use agentsty.Prelude.{
  ◌≡◌, refl, sym, ◌≢◌, ap, ◌∙◌, true, false, Option, none, some, List, [], ◌∷◌, Str, codes, str_eq,
  str_eq_iff, Dict, ok, Bool-cases, if◌then◌else◌, inl, inr,
}
use mathlib.Core.Bool.{false≢true}
use agentsty.V1alpha1.{AgentSession, ObjectMeta, Time, group_version, kind}
use agentsty.Kube.{
  object, text, Fields, end, field, get_field, Unstructured, string_map_to_interface, spec_to_map,
  status_to_map, empty_status, to_unstructured, from_unstructured, object_of, with_finalizers,
  with_uid,
}
use agentsty.Kube.RoundTrip.{
  ReadsMaps, ReadsBack, normal, spec_from_map-spec_to_map, status_from_map-status_to_map,
}

abbrev pub meta_of : Unstructured → Fields → ObjectMeta
meta_of u o = record {
  name = u.get_name o;
  namespace = u.get_namespace o;
  uid = u.get_uid o;
  labels = u.get_labels o;
  finalizers = u.get_finalizers o;
  creation_timestamp = u.get_creation_timestamp o;
  deletion_timestamp = u.get_deletion_timestamp o;
}

-- the metadata that ToUnstructured writes
abbrev pub metadata : Str → Str → Dict Str → Fields
metadata name namespace labels = field (codes "name") (text name) (
    field (codes "namespace") (text namespace)
      (field (codes "labels") (object (string_map_to_interface labels)) end))

-- What the package documents: the getters read the metadata, and the two setters change their own
-- entry of the metadata and nothing else, if the metadata is a map.
pub record KeepsMeta (u : Unstructured) : Type 0 where
  pub reads_maps : ReadsMaps u
  pub meta_of_metadata :
      (o : Fields) (name namespace : Str) (labels : Dict Str)
      → get_field (codes "metadata") o ≡ some (object (metadata name namespace labels))
      → meta_of u o ≡ record {
        name = name;
        namespace = namespace;
        uid = [];
        labels = labels;
        finalizers = [];
        creation_timestamp = none;
        deletion_timestamp = none;
      }
  pub meta_of-set_finalizers :
      (o m : Fields) (fs : List Str)
      → get_field (codes "metadata") o ≡ some (object m)
      → (meta_of u (u.set_finalizers fs o) ≡ record (meta_of u o) { finalizers = fs })
        × ((m' : Fields) × (get_field (codes "metadata") (u.set_finalizers fs o)
              ≡ some (object m')))
  pub meta_of-set_uid :
      (o m : Fields) (uid : Str)
      → get_field (codes "metadata") o ≡ some (object m)
      → meta_of u (u.set_uid uid o) ≡ record (meta_of u o) { uid = uid }
  pub get_field-set_finalizers :
      (o : Fields) (fs : List Str) (key : Str)
      → key ≢ codes "metadata"
      → get_field key (u.set_finalizers fs o) ≡ get_field key o
  pub get_field-set_uid :
      (o : Fields) (uid key : Str)
      → key ≢ codes "metadata"
      → get_field key (u.set_uid uid o) ≡ get_field key o

module _ (format_time : Time → Str) (parse_time : Str → Option Time) (u : Unstructured)
    (k : KeepsMeta u) where
  -- the session that is read back
  abbrev pub stored : AgentSession → AgentSession
  stored s = record {
    api_version = group_version;
    kind_name = kind;
    meta = record (s.meta) { creation_timestamp = none; deletion_timestamp = none };
    spec = s.spec;
    status =
        if str_eq s.status.phase [] then empty_status else normal format_time parse_time s.status;
  }

  with_finalizers-meta :
      (fs : List Str) (o m : Fields)
      → get_field (codes "metadata") o ≡ some (object m)
      → (meta_of u o).finalizers ≡ []
      → (meta_of u (with_finalizers format_time parse_time u fs o)
          ≡ record (meta_of u o) { finalizers = fs })
        × ((m' : Fields) × (get_field
                (codes "metadata")
                (with_finalizers format_time parse_time u fs o)
              ≡ some (object m')))
  with_finalizers-meta [] o m h e = (λ i. record (meta_of u o) { finalizers = e i }, (m, h))
  with_finalizers-meta (f ∷ fs) o m h e = k.meta_of-set_finalizers o m (f ∷ fs) h

  with_uid-meta :
      (uid : Str) (o m : Fields)
      → get_field (codes "metadata") o ≡ some (object m)
      → (meta_of u o).uid ≡ []
      → meta_of u (with_uid format_time parse_time u uid o) ≡ record (meta_of u o) { uid = uid }
  unfolding str_eq
  with_uid-meta [] o m h e = λ i. record (meta_of u o) { uid = e i }
  with_uid-meta (c ∷ cs) o m h e = k.meta_of-set_uid o m (c ∷ cs) h

  with_finalizers-get_field :
      (fs : List Str) (o : Fields) (key : Str)
      → key ≢ codes "metadata"
      → get_field key (with_finalizers format_time parse_time u fs o) ≡ get_field key o
  with_finalizers-get_field [] o key other = refl
  with_finalizers-get_field (f ∷ fs) o key other = k.get_field-set_finalizers o (f ∷ fs) key other

  with_uid-get_field :
      (uid : Str) (o : Fields) (key : Str)
      → key ≢ codes "metadata"
      → get_field key (with_uid format_time parse_time u uid o) ≡ get_field key o
  unfolding str_eq
  with_uid-get_field [] o key other = refl
  with_uid-get_field (c ∷ cs) o key other = k.get_field-set_uid o (c ∷ cs) key other

  field_kept :
      (s : AgentSession) (key : Str)
      → key ≢ codes "metadata"
      → get_field key (to_unstructured format_time parse_time u s)
        ≡ get_field key (object_of format_time parse_time u s)
  unfolding to_unstructured
  field_kept s key other =
      with_uid-get_field s.uid _ key other ∙ with_finalizers-get_field s.finalizers _ key other

  meta_kept :
      (s : AgentSession) → meta_of u (to_unstructured format_time parse_time u s) ≡ (stored s).meta
  unfolding to_unstructured get_field str_eq
  meta_kept s =
      let o = object_of format_time parse_time u s in
      let read = k.meta_of_metadata o s.name s.namespace s.labels refl in
      let (finalized, (m, there)) =
        with_finalizers-meta s.finalizers o _ refl (ap (λ x. x.finalizers) read) in
      with_uid-meta s.uid _ m there (ap (λ x. x.uid) finalized ∙ ap (λ x. x.uid) read)
      ∙ ap {A = ObjectMeta} (λ x. record x { uid = s.uid }) finalized
      ∙ ap {A = ObjectMeta} (λ x. record x { uid = s.uid; finalizers = s.finalizers }) read

  apart : (key : Str) → str_eq key (codes "metadata") ≡ false → key ≢ codes "metadata"
  apart key h e = absurd (false≢true (sym h ∙ (str_eq_iff key (codes "metadata")).1 e))

  spec_there :
      (s : AgentSession)
      → u.nested_map (to_unstructured format_time parse_time u s) (codes "spec")
        ≡ ok (some (spec_to_map s.spec))
  unfolding get_field str_eq
  spec_there s =
      k.reads_maps.nested_map_object _ (codes "spec") _
        (field_kept s (codes "spec") (apart (codes "spec") refl))

  status_there :
      (s : AgentSession)
      → str_eq s.status.phase [] ≡ false
      → u.nested_map (to_unstructured format_time parse_time u s) (codes "status")
        ≡ ok (some (status_to_map format_time parse_time s.status))
  unfolding get_field str_eq
  status_there s phase =
      k.reads_maps.nested_map_object _ (codes "status") _
        (field_kept s (codes "status") (apart (codes "status") refl) ∙ rw (phase, get_field))

  status_missing :
      (s : AgentSession)
      → str_eq s.status.phase [] ≡ true
      → u.nested_map (to_unstructured format_time parse_time u s) (codes "status") ≡ ok none
  unfolding get_field str_eq
  status_missing s no_phase =
      k.reads_maps.nested_map_missing _ (codes "status")
        (field_kept s (codes "status") (apart (codes "status") refl) ∙ rw (no_phase, get_field))

  -- A session that is written as an object and read back is the same session, with the type's constants
  -- and no timestamps of the server, and with its status: empty if it had no phase, or else with the
  -- container's name `agent` where it had none, and with its two times rounded down to seconds. The
  -- conditions are that the prints of these times, where there are any, are not empty and are read back
  -- as the time rounded down to a second, and that the package unstructured keeps what it documents.
  pub from_unstructured-to_unstructured :
      (s : AgentSession)
      → ReadsBack format_time parse_time s.status.created_at
      → ReadsBack format_time parse_time s.status.expires_at
      → from_unstructured format_time parse_time u
          (some (to_unstructured format_time parse_time u s))
        ≡ ok (stored s)
  unfolding from_unstructured
  from_unstructured-to_unstructured s hc he =
      let spec = spec_from_map-spec_to_map u s.spec k.reads_maps in
      elim (Bool-cases (str_eq s.status.phase [])) [
        | inl no_phase ↦
            rw (spec_there s, status_missing s no_phase, no_phase)
              λ i. ok (record {
                api_version = group_version;
                kind_name = kind;
                meta = meta_kept s i;
                spec = spec i;
                status = empty_status;
              })
        | inr phase ↦
            rw (spec_there s, status_there s phase, phase)
              λ i. ok (record {
                api_version = group_version;
                kind_name = kind;
                meta = meta_kept s i;
                spec = spec i;
                status = status_from_map-status_to_map format_time parse_time s.status hc he i;
              })
      ]
