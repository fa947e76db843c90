-- ===== src/Groups/Tests/OneGroup.antt =====
-- A volume service with one type, one group, one volume and one snapshot at most, for runs of
-- cluster-manager/client/openstack/openstack.go.
use cdm_center.Prelude.{
  String, Bool, true, false, ◌&&◌, Option, none, some, List, [], ◌∷◌, if◌then◌else◌, ◌==◌,
  String-Eq,
}
use cdm_center.Errors.{Error}
use cdm_center.Steps.{Made}
use cdm_center.Cluster.Store.{Result}
use cdm_center.Groups.{Group, Train, is_contain_uuid}

pub data Level : Type 0 where
  nothing typed grouped : Level

pub record World : Type 0 where
  pub level : Level
  pub volume : Bool
  pub snapshot : Bool

abbrev pub read_names : String → List String
read_names text = if text == "" then [] else "v" ∷ []

abbrev pub group_of : World → Group
group_of s = record {
  id = "g";
  name = "group";
  description = "";
  group_type = "t";
  volume_types = [];
  volumes = if s.volume then "v" ∷ [] else [];
}

abbrev pub is_grouped : Level → Bool
is_grouped grouped = true
is_grouped _ = false

abbrev pub is_typed : Level → Bool
is_typed nothing = false
is_typed _ = true

abbrev pub make_type : Level → World → World × Result String Error
make_type nothing s = (record s { level = typed }, Result.ok "t")
make_type _ s = (s, Result.error (Error.other "conflict"))

-- A group whose name is "bad" does not become available.
abbrev pub make_group : Level → Group → World → World × Made Group
make_group typed r s =
    if r.group_type == "t"
    then (
      record s { level = grouped },
      (if r.name == "bad"
          then Made.broken (group_of s) (Error.other "timeout")
          else Made.made (group_of s)),
    )
    else (s, Made.refused (Error.other "conflict"))
make_group _ r s = (s, Made.refused (Error.other "conflict"))

abbrev pub drop_type : Level → World → World × Option Error
drop_type typed s = (record s { level = nothing }, none)
drop_type _ s = (s, some Error.unknown)

abbrev pub drop_group : Level → World → World × Option Error
drop_group grouped s = (record s { level = typed }, none)
drop_group _ s = (s, some Error.unknown)

abbrev pub service : Train World
service = record {
  show_group = λ g s.
      if g == "g" && is_grouped s.level
      then Result.ok (group_of s)
      else Result.error Error.client_not_found;
  list_snapshots =
      λ s. Result.ok (if s.snapshot then record { id = "x"; group_id = "g" } ∷ [] else []);
  delete_snapshot = λ x s.
      if x == "x" then (record s { snapshot = false }, none) else (s, some Error.client_not_found);
  update_group = λ g w s.
      if g == "g"
      then (
        record s {
          volume =
              if is_contain_uuid "v" (read_names w.add_volumes)
              then true
              else if is_contain_uuid "v" (read_names w.remove_volumes)
              then false
              else s.volume;
        },
        none,
      )
      else (s, some Error.client_not_found);
  delete_group = λ g volumes s. if g == "g" then drop_group s.level s else (s, some Error.unknown);
  delete_type = λ y s. if y == "t" then drop_type s.level s else (s, some Error.unknown);
  create_type = λ r s. make_type s.level s;
  create_group = λ r s. make_group s.level r s;
}

abbrev pub has_member : String → String → World → Bool
has_member g v s = g == "g" && (v == "v" && s.volume)

abbrev pub has_the_group : String → World → Bool
has_the_group h s = h == "g" && is_grouped s.level

abbrev pub has_the_type : String → World → Bool
has_the_type y s = y == "t" && is_typed s.level

abbrev pub has_the_snapshot : String → String → World → Bool
has_the_snapshot x g s = x == "x" && (g == "g" && s.snapshot)
