-- ===== src/Layout/Registry.antt =====
-- The registered layouts: `normalizeName`, `layoutAdd` and `clear` (cpp/SchemeLayout.cpp). The
-- compositor's `registerTiledAlgo` is a parameter; the calls that are made of it are in the log.
use hyprscheme.Base.{
  ℕ, ◌+◌, Bool, true, false, not, ◌||◌, List, [], ◌∷◌, ◌++◌, if◌then◌else◌, Text, codes, is_empty,
  has_prefix, text_eq,
}
use hyprscheme.Scm.{Scm}
use hyprscheme.Layout.Geometry.{Provider}

-- What the registry asks of the compositor.
pub data Request : Type 0 where
  unregister_algo : Text → Request
  refresh_layouts : Request

-- `g_layouts`, the number of `g_layoutEventListeners`, and the requests in order.
pub record Registry : Type 0 where
  pub layouts : List Provider
  pub listeners : ℕ
  pub requests : List Request

abbrev pub scheme_prefix : Text
scheme_prefix = codes "scheme:"

unfoldable pub normalize_name : Text → Text
normalize_name name = if has_prefix scheme_prefix name then name else scheme_prefix ++ name

unfoldable pub has_layout : Text → List Provider → Bool
has_layout full [] = false
has_layout full (l ∷ ls) = text_eq l.name full || has_layout full ls

-- Whether the layout was registered: 0 or -1 in the source. A null name is the empty one.
unfoldable pub layout_add : Bool → (Text → Bool) → Text → Scm → Registry → Registry × Bool
layout_add up register name spec r =
    let full = normalize_name name in
    if not up || is_empty name
    then (r, false)
    else if has_layout full r.layouts
    then (r, false)
    else if not (register full)
    then (r, false)
    else (
      record r {
        layouts =
            r.layouts ++ record { name = full; active = true; did_error = false; spec = spec } ∷ [];
        listeners = r.listeners + 2;
        requests = r.requests ++ refresh_layouts ∷ [];
      },
      true,
    )

unfoldable pub unregister_all : List Provider → List Request
unregister_all [] = []
unregister_all (l ∷ ls) = unregister_algo l.name ∷ unregister_all ls

-- `l->active = false` on the providers, which the algorithms that are left still share.
unfoldable pub deactivate : List Provider → List Provider
deactivate [] = []
deactivate (l ∷ ls) = record l { active = false } ∷ deactivate ls

-- The registry afterwards, and the providers as the algorithms see them.
unfoldable pub clear : Registry → Registry × List Provider
unfolding unregister_all deactivate
clear r = if is_empty r.layouts then (r, []) else (
  record {
    layouts = [];
    listeners = 0;
    requests = r.requests ++ (unregister_all r.layouts ++ refresh_layouts ∷ []);
  },
  deactivate r.layouts,
)
