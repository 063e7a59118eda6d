-- ===== src/Store/Keyspace.antt =====
-- A list of a namespace finds the resources of this namespace.
use Prim.Native.String
use tugboat.Base.{◌≡◌, sym, ◌∙◌, ap, ◌↔◌, String, true, false, some}
use tugboat.Base.Options.{is_some}
use tugboat.Base.Text.{strip_prefix}
use tugboat.Base.Affixes.{strip_prefix_common, strip_prefix_part, strip_prefix-blank}
use tugboat.Base.Results.{ok, ok_injective}
use tugboat.Manifests.Names.{is_valid_name, has_code-is_valid_name}
use tugboat.Store.Keys.{ResourceType, create_key, create_watch_key, ◌/+◌, base_path}

after_slash : (a s t : String) → strip_prefix (a /+ s) (a /+ t) ≡ strip_prefix s t
after_slash a s t =
    strip_prefix_common a (String.◌++◌ "/" s) (String.◌++◌ "/" t) ∙ strip_prefix_common "/" s t

-- The key of a namespaced resource begins with the prefix that a list or a watch of a namespace asks
-- for exactly when the resource is in that namespace, for namespaces with valid names.
pub create_key-create_watch_key :
    (R : ResourceType) (ns ns' name key : String)
    → R.is_cluster_scoped ≡ false
    → is_valid_name ns ≡ true
    → is_valid_name ns' ≡ true
    → create_key R (some ns) name ≡ ok key
    → (is_some (strip_prefix key (create_watch_key R (some ns'))) ≡ true) ↔ (ns ≡ ns')
unfolding create_key create_watch_key
create_key-create_watch_key R ns ns' name key scoped v v' e =
    let opened = rw (scoped, create_key) at e in
    let whole : key ≡ base_path /+ R.group /+ R.plural /+ ns /+ name = sym (ok_injective opened) in
    let tail : strip_prefix (base_path /+ R.group /+ R.plural /+ ns /+ name)
          (base_path /+ R.group /+ R.plural /+ ns' /+ "")
        ≡ strip_prefix (ns /+ name) (ns' /+ "") =
      after_slash base_path _ _ ∙ after_slash R.group _ _ ∙ after_slash R.plural _ _ in
    let all_of : strip_prefix key (base_path /+ R.group /+ R.plural /+ ns' /+ "")
        ≡ strip_prefix (ns /+ name) (ns' /+ "") =
      ap (λ k. strip_prefix k (base_path /+ R.group /+ R.plural /+ ns' /+ "")) whole ∙ tail in
    (
      λ h.
          strip_prefix_part ns ns' name (has_code-is_valid_name ns v)
            (has_code-is_valid_name ns' v') (ap is_some (sym all_of) ∙ h),
      λ same.
          ap is_some all_of
          ∙ ap (λ n. is_some (strip_prefix (ns /+ name) (n /+ ""))) (sym same)
          ∙ ap is_some (after_slash ns name "")
          ∙ ap is_some (strip_prefix-blank name),
    )
