-- ===== src/Resource/Packages.antt =====
-- resource/src/resources/apt.rs and pacman.rs
use lusid.Base.{Option, none, some, List, [], ◌∷◌, map, String}
use lusid.Tree.{leaf}
use lusid.Causality.Collect.{CausalityTree}
use lusid.Causality.Meta
use lusid.Operation.{apt, pacman}
use lusid.Operation.Packages.{apt_update, apt_install, pacman_upgrade, pacman_install}
use lusid.Resource.{Operations}

pub data AptParams : Type 0 where
  apt_package : (name : String) → AptParams
  apt_packages : (names : List String) → AptParams

pub record AptResource : Type 0 where
  pub name : String

pub data AptState : Type 0 where
  apt_not_installed apt_installed : AptState

pub data AptChange : Type 0 where
  install_apt : (name : String) → AptChange

unfoldable pub apt_resources : AptParams → List (CausalityTree AptResource String)
apt_resources (apt_package name) = leaf Meta.default (record { name = name }) ∷ []
apt_resources (apt_packages names) = map (λ name. leaf Meta.default (record { name = name })) names

unfoldable pub apt_change : AptResource → AptState → Option AptChange
apt_change resource apt_installed = none
apt_change resource apt_not_installed = some (install_apt resource.name)

unfoldable pub apt_operations : AptChange → Operations
apt_operations (install_apt name) =
    leaf (Meta.id "update") (apt apt_update)
    ∷ leaf (Meta.requires ("update" ∷ [])) (apt (apt_install (name ∷ [])))
    ∷ []

pub data PacmanParams : Type 0 where
  pacman_package : (name : String) → PacmanParams
  pacman_packages : (names : List String) → PacmanParams

pub record PacmanResource : Type 0 where
  pub name : String

pub data PacmanState : Type 0 where
  pacman_not_installed pacman_installed : PacmanState

pub data PacmanChange : Type 0 where
  install_pacman : (name : String) → PacmanChange

unfoldable pub pacman_resources : PacmanParams → List (CausalityTree PacmanResource String)
pacman_resources (pacman_package name) = leaf Meta.default (record { name = name }) ∷ []
pacman_resources (pacman_packages names) =
    map (λ name. leaf Meta.default (record { name = name })) names

unfoldable pub pacman_change : PacmanResource → PacmanState → Option PacmanChange
pacman_change resource pacman_installed = none
pacman_change resource pacman_not_installed = some (install_pacman resource.name)

unfoldable pub pacman_operations : PacmanChange → Operations
pacman_operations (install_pacman name) =
    leaf (Meta.id "upgrade") (pacman pacman_upgrade)
    ∷ leaf (Meta.requires ("upgrade" ∷ [])) (pacman (pacman_install (name ∷ [])))
    ∷ []
