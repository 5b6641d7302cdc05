-- ===== src/Tests/Startup.antt =====
use serv_mark.Base.{
  ◌≡◌, some, none, List, [], ◌∷◌, ◌++◌, refl, ℤ, pos, negsuc, Text, codes, text_eq,
}
use serv_mark.Harness.Policy.{gather_nodes, membind_of, policy_of, mpol_bind, mpol_interleave}
use serv_mark.Main.Search.{
  xdg_of, first_readable, search_config, prescan, config_file, prescan-config,
}

abbrev args : List Text
args = codes "--dry-run" ∷ codes "-T" ∷ codes "4" ∷ []

prescan-config_example :
    prescan
      (codes "default.cfg")
      (args ++ codes "--config" ∷ codes "mine.cfg" ∷ codes "-C" ∷ codes "other.cfg" ∷ [])
    ≡ codes "mine.cfg"
prescan-config_example =
    prescan-config (codes "default.cfg") (codes "mine.cfg") args
      (codes "-C" ∷ codes "other.cfg" ∷ [])
      ((refl, refl, refl), ((refl, refl, refl), ((refl, refl, refl), tt)))

-- The option is read by the C library, but not by the scan.
joined :
    config_file
      (λ path. text_eq path (codes "/etc/servmark/default.cfg"))
      none
      (some (codes "/root"))
      (codes "-Cmine.cfg" ∷ [])
    ≡ codes "/etc/servmark/default.cfg"
unfolding config_file prescan search_config first_readable xdg_of
joined = refl

abbrev nodes : List ℤ
nodes = pos 0 ∷ negsuc 0 ∷ pos 2 ∷ pos 0 ∷ []

interleaves :
    policy_of (membind_of (some (codes "interleave"))) nodes (pos 1) ≡ some (mpol_interleave 5 3)
unfolding policy_of membind_of gather_nodes
interleaves = refl

binds : policy_of (membind_of (some (codes "local"))) nodes (pos 2) ≡ some (mpol_bind 4 3)
unfolding policy_of membind_of
binds = refl
