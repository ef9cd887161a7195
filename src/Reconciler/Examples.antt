-- ===== src/Reconciler/Examples.antt =====
-- A machine that lost a bond which has an address.
use d_plane_os.Prelude.{refl, str, true, false, some, All, [], ◌∷◌}
use d_plane_os.Reconciler.{Tables, Kernel, run}
use d_plane_os.Reconciler.Warranted.{IsWarranted, run-IsWarranted}

abbrev kernel : Kernel
kernel = record {
  links = some (str "eth0" ∷ []);
  fails = λ cs c. false;
  addr_list = λ cs l. some [];
  parse_cidr = λ c. some c;
}

abbrev tables : Tables
tables = record {
  bonds = (record { id = 1; name = str "bond0"; slaves = str "eth0"; mode = str "802.3ad" }) ∷ [];
  vlans = [];
  interfaces =
      (record {
        id = 1;
        type = str "static";
        interface = str "bond0";
        cidr = str "10.0.0.2/24";
        gateway = [];
      })
      ∷ (record {
        id = 2;
        type = str "static";
        interface = str "eth0";
        cidr = str "10.0.1.2/24";
        gateway = str "10.0.1.1";
      })
      ∷ [];
  next_id = 3;
}

run-IsWarranted_example :
    All (IsWarranted (str "eth0" ∷ [])) (run kernel (true, true, true) tables).calls
run-IsWarranted_example = run-IsWarranted kernel (true, true, true) tables (str "eth0" ∷ []) refl
