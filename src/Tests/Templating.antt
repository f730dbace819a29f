-- ===== src/Tests/Templating.antt =====
-- The theorem on templates, at a concrete directory.
use s_size_store.Prelude.{◌≡◌, refl, true, false, List, [], ◌∷◌, Option, none, some, if◌then◌else◌}
use s_size_store.Bytes.{Bytes, codes}
use s_size_store.Json.{Json, string}
use s_size_store.Handlers.Files.{extension, split_last}
use s_size_store.Templating.{PageEntry, templating, render, parse_all, is_template}
use s_size_store.Templating.Rendering.{render_lem, has_template, drawn}

-- A template is its name, and shows its name.
abbrev parse_template : Bytes → Option Bytes
parse_template name = some name

abbrev draw : Bytes → Json → Option Bytes
draw t value = some t

abbrev dir : List PageEntry
dir =
    record { is_regular = true; name = codes "feed.html" }
    ∷ record { is_regular = false; name = codes "old.html" }
    ∷ record { is_regular = true; name = codes "notes.txt" }
    ∷ []

loads :
    templating parse_template draw (some dir) ≡ some ((codes "feed.html", codes "feed.html") ∷ [])
unfolding templating parse_all is_template extension split_last
loads = refl

render_lem_example :
    render parse_template draw
      ((codes "feed.html", codes "feed.html") ∷ [])
      (codes "old.html")
      (string [])
    ≡ drawn parse_template draw
        (if has_template (codes "old.html") dir then parse_template (codes "old.html") else none)
        (string [])
render_lem_example =
    render_lem parse_template draw dir ((codes "feed.html", codes "feed.html") ∷ [])
      (codes "old.html") (string []) loads
