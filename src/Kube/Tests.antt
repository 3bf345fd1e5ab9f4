-- ===== src/Kube/Tests.antt =====
-- Runs of the theorems on the session client, with a package unstructured that keeps its metadata as
-- fields, and an API whose objects are a list.
use agentsty.Prelude.{
  ◌≡◌, refl, ap, ◌∙◌, Option, none, some, List, [], ◌∷◌, Str, codes, str_eq, ne→str_eq, Dict, pos,
  ltb_ℤ, scale, wrap64, ◌+ℤ◌, Result, ok, err, if◌then◌else◌, sym,
}
use agentsty.V1alpha1.{AgentSession, ObjectMeta, Time, seconds, new_agent_session}
use agentsty.V1alpha1.Tests.{stub_spec}
use agentsty.Kube.{
  Value, text, texts, object, Fields, end, field, get_field, string_value, Unstructured,
  string_map_to_interface, to_unstructured, from_unstructured,
}
use agentsty.Kube.Client.{Dynamic, sessions_of}
use agentsty.ModelProxy.Token.{unix}
use agentsty.Kube.RoundTrip.{ReadsMaps, ReadsBack}
use agentsty.Kube.Objects.{KeepsMeta, meta_of, metadata, stored, from_unstructured-to_unstructured}
use agentsty.Kube.Listing.{sessions_of-eq-owned, owned, read_all}

abbrev fields_of : Option Value → Fields
fields_of (some (object m)) = m
fields_of _ = end

abbrev texts_of : Option Value → List Str
texts_of (some (texts ts)) = ts
texts_of _ = []

abbrev kept_text : Str → Value → Dict Str → Dict Str
kept_text k (text v) d = (k, v) ∷ d
kept_text k _ d = d

abbrev dict_of : Fields → Dict Str
dict_of end = []
dict_of (field k v m) = kept_text k v (dict_of m)

abbrev meta_fields : Fields → Fields
meta_fields o = fields_of (get_field (codes "metadata") o)

abbrev nested : Option Value → Result Str (Option Fields)
nested (some (object m)) = ok (some m)
nested none = ok none
nested _ = err (codes "not a map")

abbrev with_meta : Str → Value → Fields → Fields
with_meta key v o = field (codes "metadata") (object (field key v (meta_fields o))) o

abbrev pub toy_unstructured : Unstructured
toy_unstructured = record {
  nested_map = λ m key. nested (get_field key m);
  set_finalizers = λ fs o. with_meta (codes "finalizers") (texts fs) o;
  set_uid = λ uid o. with_meta (codes "uid") (text uid) o;
  get_name = λ o. string_value (get_field (codes "name") (meta_fields o));
  get_namespace = λ o. string_value (get_field (codes "namespace") (meta_fields o));
  get_uid = λ o. string_value (get_field (codes "uid") (meta_fields o));
  get_labels = λ o. dict_of (fields_of (get_field (codes "labels") (meta_fields o)));
  get_finalizers = λ o. texts_of (get_field (codes "finalizers") (meta_fields o));
  get_creation_timestamp = λ o. none;
  get_deletion_timestamp = λ o. none;
}

dict_of-string_map_to_interface : (d : Dict Str) → dict_of (string_map_to_interface d) ≡ d
unfolding string_map_to_interface
dict_of-string_map_to_interface [] = refl
dict_of-string_map_to_interface ((k, v) ∷ d) =
    ap (λ x. (k, v) ∷ x) (dict_of-string_map_to_interface d)

reads_maps : ReadsMaps toy_unstructured
reads_maps = record {
  nested_map_object = λ m key fs h. ap nested h;
  nested_map_missing = λ m key h. ap nested h;
}

-- the metadata of an object whose metadata is known
abbrev meta_at : Fields → ObjectMeta
meta_at m = record {
  name = string_value (get_field (codes "name") m);
  namespace = string_value (get_field (codes "namespace") m);
  uid = string_value (get_field (codes "uid") m);
  labels = dict_of (fields_of (get_field (codes "labels") m));
  finalizers = texts_of (get_field (codes "finalizers") m);
  creation_timestamp = none;
  deletion_timestamp = none;
}

meta_of-eq :
    (o m : Fields)
    → get_field (codes "metadata") o ≡ some (object m)
    → meta_of toy_unstructured o ≡ meta_at m
meta_of-eq o m h = ap (λ v. meta_at (fields_of v)) h

pub keeps_meta : KeepsMeta toy_unstructured
unfolding get_field str_eq
keeps_meta = record {
  reads_maps = reads_maps;
  meta_of_metadata = λ o name namespace labels h.
      meta_of-eq o (metadata name namespace labels) h
      ∙ ap {A = Dict Str}
          (λ d. record {
            name = name;
            namespace = namespace;
            uid = [];
            labels = d;
            finalizers = [];
            creation_timestamp = none;
            deletion_timestamp = none;
          })
          (dict_of-string_map_to_interface labels);
  meta_of-set_finalizers = λ o m fs h. (refl, (_, refl));
  meta_of-set_uid = λ o m uid h. refl;
  get_field-set_finalizers =
      λ o fs key other. rw (ne→str_eq (codes "metadata") key (λ e. other (sym e))) refl;
  get_field-set_uid =
      λ o uid key other. rw (ne→str_eq (codes "metadata") key (λ e. other (sym e))) refl;
}

abbrev pub print_time : Time → Str
print_time t = if ltb_ℤ t (pos 10) then codes "created" else codes "expires"

abbrev pub read_time : Str → Option Time
read_time s = if str_eq s (codes "created") then some (pos 0) else some (pos 7200000000000)

abbrev pub pending : AgentSession
pending = new_agent_session (codes "sess-1") (codes "agentcask-sessions") stub_spec (pos 5)

abbrev pub object_of_pending : Fields
object_of_pending = to_unstructured print_time read_time toy_unstructured pending

pub created_back : ReadsBack print_time read_time pending.status.created_at
unfolding ReadsBack new_agent_session str_eq unix scale
created_back = (λ e. cc, refl)

pub expires_back : ReadsBack print_time read_time pending.status.expires_at
unfolding ReadsBack new_agent_session str_eq seconds scale wrap64 ◌+ℤ◌ unix
expires_back = (λ e. cc, refl)

from_unstructured-to_unstructured_example :
    from_unstructured print_time read_time toy_unstructured (some object_of_pending)
    ≡ ok (stored print_time read_time toy_unstructured keeps_meta pending)
from_unstructured-to_unstructured_example =
    from_unstructured-to_unstructured print_time read_time toy_unstructured keeps_meta pending
      created_back expires_back

-- an API without objects
abbrev pub toy_dynamic : Dynamic
toy_dynamic = record {
  State = List Fields;
  list = λ st limit. ok st;
  create = λ st o. (o ∷ st, ok o);
  get = λ st name. err (codes "not found");
  delete = λ st name. (st, none);
  patch = λ st status name m. (st, none);
}

sessions_of-eq-owned_example :
    sessions_of print_time read_time toy_unstructured toy_dynamic
      (codes "user-1")
      (object_of_pending ∷ [])
    ≡ owned print_time read_time toy_unstructured toy_dynamic
        (codes "user-1")
        (read_all print_time read_time toy_unstructured toy_dynamic (object_of_pending ∷ []))
sessions_of-eq-owned_example =
    sessions_of-eq-owned print_time read_time toy_unstructured toy_dynamic (codes "user-1")
      (object_of_pending ∷ [])
