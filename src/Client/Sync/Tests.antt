-- ===== src/Client/Sync/Tests.antt =====
-- The order of uploads of a repository with two operations.
use dojjo.Prelude.Text.Order.{text_order, text_eq, text_lt}
use dojjo.Prelude.{List, [], ◌∷◌, ◌≡◌, refl, ok}
use dojjo.Prelude.Order.Sets.{insert, set_of, place, sort}
use dojjo.Prelude.Dict.{lookup}
use dojjo.Prelude.Text.{Text, text}
use dojjo.Mirror.Operation.{is_all_zero, parent_path}
use dojjo.Mirror.Kahn.{kahn_toposort, add_edges, zeroes, sources, relax, drain}
use dojjo.Mirror.ApplyOrder.{
  compute_mirror_apply_order, layers_from, layer_paths, sorted_paths_in_layer, filter_layer,
  classify_path, layer_of, windows_le, ordered_operations, check_ids, hex_id_valid, sort_operations,
  operation_parent_edges, edges_of, read_parents, parent_edges,
}
use dojjo.Mirror.Expand.{
  add_parent, expand_parents, expand_child, expand_loop, op_seeds, expand_operation_parent_closure,
}
use dojjo.Mirror.Expand.Tests.{repo_codec, repo_files, first_op, second_op, bytes_of, digit, digits}
use dojjo.Client.Sync.Order.{only_needed, upload_order, IsUploadOrder, upload_order_sound}

abbrev changed : List Text
changed = text "index/x" ∷ second_op ∷ text "op_heads/heads/h" ∷ first_op ∷ text "store/a" ∷ []

abbrev uploads : List Text
uploads = text "store/a" ∷ first_op ∷ second_op ∷ text "index/x" ∷ text "op_heads/heads/h" ∷ []

upload_run : upload_order repo_codec repo_files changed ≡ ok uploads
unfolding upload_order only_needed expand_operation_parent_closure expand_loop expand_child
    expand_parents add_parent op_seeds bytes_of digit digits lookup place compute_mirror_apply_order
    layers_from layer_paths sorted_paths_in_layer filter_layer classify_path layer_of sort
    windows_le ordered_operations check_ids hex_id_valid sort_operations operation_parent_edges
    edges_of read_parents parent_edges is_all_zero parent_path kahn_toposort add_edges zeroes
    sources relax drain set_of insert text_eq text_lt
upload_run = refl

upload_order_sound_example : IsUploadOrder repo_codec repo_files changed uploads
upload_order_sound_example = upload_order_sound repo_codec repo_files changed uploads upload_run
