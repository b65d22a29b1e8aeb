-- ===== src/Tests/Embeds.antt =====
-- Rows of one table in the rows of another.
use dirbase.Prelude.{none, some, [], ◌∷◌, ◌≡◌, refl}
use dirbase.Prelude.Int.{ℤ, pos}
use dirbase.BTreeMap
use dirbase.BTreeMap.{BTreeMap}
use dirbase.Json.{Json, from_object}
use dirbase.Query.Evaluator.{value_to_filter_string}
use dirbase.Http.Embed.{key_of, build_relation_lookup, resolve_related_row_in_lookup, embed_item}
use dirbase.Http.Embed.Related.{last_related, resolve_related_row_in_lookup-last, embed_item-again}
use dirbase.Tests.{toy}
use dirbase.Tests.Resources.{people}

abbrev post : BTreeMap (Json ℤ)
post = ("title", Json.string "first") ∷ ("user_id", Json.number (pos 2)) ∷ []

resolve_related_row_in_lookup-last_example :
    resolve_related_row_in_lookup post "user_id" (build_relation_lookup people "id")
    ≡ last_related "id" (value_to_filter_string (Json.number (pos 2))) people none
unfolding BTreeMap.get
resolve_related_row_in_lookup-last_example =
    resolve_related_row_in_lookup-last people "id" "user_id" post (Json.number (pos 2)) refl refl

embed_item-again_example :
    let lookup = build_relation_lookup people "id" in
    key_of "user_id" (embed_item "user_id" lookup (embed_item "user_id" lookup (from_object post)))
    ≡ some Json.null
embed_item-again_example = embed_item-again people "id" "user_id" post
