-- ===== src/Dispatch/Routes/Aliases.antt =====
-- Which path an MQTT notification's `sur` leads to.
use one_m2m_dds_ipe.Prelude.{String, ◌≡◌, false, some, ◌==◌, if◌then◌else◌, string_equality}
use one_m2m_dds_ipe.Prelude.Dict.{lookup-insert}
use one_m2m_dds_ipe.Dispatch.Routes.{RouteTable, norm_sur, is_blank, add_alias, resolve_sur}

-- Registering an alias makes every spelling of it, with any number of leading slashes, lead to
-- its path, and leaves what every other `sur` leads to.
pub resolve_sur-add_alias {ℓ} :
    {A : Type ℓ} (sur other path_key : String) (t : RouteTable A)
    → is_blank (some sur) ≡ false
    → is_blank (some other) ≡ false
    → resolve_sur (some other) (add_alias (some sur) path_key t)
      ≡ (if norm_sur other == norm_sur sur then some path_key else resolve_sur (some other) t)
unfolding resolve_sur add_alias
resolve_sur-add_alias sur other path_key t h k =
    rw h rw k (lookup-insert (norm_sur other) (norm_sur sur) path_key t.by_sur)
