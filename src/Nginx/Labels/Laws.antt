-- ===== src/Nginx/Labels/Laws.antt =====
-- Names and labels of an instance.
use text.Mathlib.TextLemmas.{append_cancel_left, append_cancel_right, nil-append, cons-append}
use nginx_operator.Base.{
  code, eqb, ◌∙◌, Char, ap, ℕ, ◌≡◌, refl, ◌≢◌, ◌↔◌, String, ◌<>◌, eq_iff, none, some, false, arith,
}
use nginx_operator.Base.Text.{contains_char, after_char}
use nginx_operator.Base.Dict.{lookup}
use nginx_operator.Api.Meta.{label_managed_by, label_instance, label_component, label_part_of}
use nginx_operator.Api.Server.{NginxServer}
use nginx_operator.Nginx.Labels.{
  deployment_name, service_name, config_map_name, conf_d_config_map_name, extract_image_tag,
  build_labels, selector_labels,
}

-- Two servers share the name of a Deployment, a Service or a main ConfigMap exactly if they share
-- their own name.
pub managed_names_iff :
    (s t : NginxServer)
    → ((deployment_name s ≡ deployment_name t) ↔ (s.meta.name ≡ t.meta.name))
      × ((service_name s ≡ service_name t) ↔ (s.meta.name ≡ t.meta.name))
      × ((config_map_name s ≡ config_map_name t) ↔ (s.meta.name ≡ t.meta.name))
unfolding deployment_name service_name config_map_name
managed_names_iff s t = (
  (append_cancel_right s.meta.name t.meta.name "-nginx", λ e. rw e),
  (append_cancel_right s.meta.name t.meta.name "-nginx", λ e. rw e),
  (append_cancel_right s.meta.name t.meta.name "-nginx-config", λ e. rw e),
)

-- A server's two ConfigMaps have different names.
pub config_map_names_differ : (s : NginxServer) → config_map_name s ≢ conf_d_config_map_name s
unfolding config_map_name conf_d_config_map_name
config_map_names_differ s e =
    suffixes (append_cancel_left s.meta.name "-nginx-config" "-nginx-confd" e)
  where
    suffixes : ◌≢◌ {A = String} "-nginx-config" "-nginx-confd"
    suffixes = ground (arith, eq_iff "-nginx-config" "-nginx-confd")

-- Every label that selects pods is one of the labels of the objects, with the same value.
pub selector_labels_sub :
    (server : NginxServer) (k v : String)
    → lookup k (selector_labels server) ≡ some v
    → lookup k (build_labels server) ≡ some v
unfolding selector_labels build_labels lookup
selector_labels_sub server k v h = ground (
  arith,
  eq_iff label_managed_by k,
  eq_iff label_instance k,
  eq_iff label_component k,
  eq_iff label_part_of k,
  eq_iff "app.kubernetes.io/name" k,
  eq_iff label_managed_by label_instance,
  eq_iff label_managed_by label_component,
  eq_iff label_managed_by "app.kubernetes.io/name",
  eq_iff label_part_of "app.kubernetes.io/name",
)

after_char_skip :
    (n : ℕ) (c : Char) (s : String)
    → eqb (code c) n ≡ false
    → after_char n (String.◌∷◌ c s) ≡ after_char n s
unfolding after_char
after_char_skip n c s h = rw h refl

contains_neither :
    (n : ℕ) (c : Char) (s : String)
    → contains_char n (String.◌∷◌ c s) ≡ false
    → (eqb (code c) n ≡ false) × (contains_char n s ≡ false)
unfolding contains_char
contains_neither n c s h = ground arith

after_char_at : (t : String) → after_char b':' (String.◌∷◌ ":" t) ≡ some t
unfolding after_char
after_char_at t = refl

after_char-append :
    (s t : String) → contains_char b':' s ≡ false → after_char b':' (s <> ":" <> t) ≡ some t
after_char-append String.[] t h =
    ap (after_char b':')
      (nil-append (":" <> t) ∙ cons-append ":" "" t ∙ ap (String.◌∷◌ ":") (nil-append t))
    ∙ after_char_at t
after_char-append (String.◌∷◌ c s) t h =
    let (other, later) = contains_neither b':' c s h in
    ap (after_char b':') (cons-append c s (":" <> t))
    ∙ after_char_skip b':' c (s <> ":" <> t) other
    ∙ after_char-append s t later

after_char-nil : after_char b':' "" ≡ none
unfolding after_char
after_char-nil = refl

-- The tag of an image is all that stands behind its first colon, also where that colon is the one
-- of a registry's port.
pub extract_image_tag-append :
    (s t : String) → contains_char b':' s ≡ false → extract_image_tag (s <> ":" <> t) ≡ t
unfolding extract_image_tag
extract_image_tag-append s t h =
    ground (arith, eq_iff (s <> ":" <> t) "", after_char-append s t h, after_char-nil)
