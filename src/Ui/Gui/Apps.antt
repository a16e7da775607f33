-- ===== src/Ui/Gui/Apps.antt =====
-- kernel/gui.c: the windows of the launcher, with their titles and texts.
use trade_kernel.Base.{ℕ, List, [], ◌∷◌}

-- A window of the launcher: its place, its size, its title and its three labels
pub record App : Type 0 where
  pub x : ℕ
  pub y : ℕ
  pub width : ℕ
  pub height : ℕ
  pub title : List ℕ
  pub labels : List (List ℕ)

abbrev pub terminal : App
terminal = record {
  x = 16;
  y = 5;
  width = 48;
  height = 12;
  -- Terminal
  title = (84 ∷ 101 ∷ 114 ∷ 109 ∷ 105 ∷ 110 ∷ 97 ∷ 108 ∷ []);
  labels =
      -- Shell is still active in kernel mode.
      (83 ∷ 104 ∷ 101 ∷ 108 ∷ 108 ∷ 32 ∷ 105 ∷ 115 ∷ 32 ∷ 115 ∷ 116 ∷ 105 ∷ 108 ∷ 108 ∷ 32 ∷ 97 ∷ 99
        ∷ 116 ∷ 105 ∷ 118 ∷ 101 ∷ 32 ∷ 105 ∷ 110 ∷ 32 ∷ 107 ∷ 101 ∷ 114 ∷ 110 ∷ 101 ∷ 108 ∷ 32 ∷ 109
        ∷ 111 ∷ 100 ∷ 101 ∷ 46 ∷ [])
      ∷
          -- Use F2 to return to shell prompt.
          (85 ∷ 115 ∷ 101 ∷ 32 ∷ 70 ∷ 50 ∷ 32 ∷ 116 ∷ 111 ∷ 32 ∷ 114 ∷ 101 ∷ 116 ∷ 117 ∷ 114 ∷ 110
          ∷ 32 ∷ 116 ∷ 111 ∷ 32 ∷ 115 ∷ 104 ∷ 101 ∷ 108 ∷ 108 ∷ 32 ∷ 112 ∷ 114 ∷ 111 ∷ 109 ∷ 112
          ∷ 116 ∷ 46 ∷ [])
      ∷
          -- This is a desktop launcher prototype.
          (84 ∷ 104 ∷ 105 ∷ 115 ∷ 32 ∷ 105 ∷ 115 ∷ 32 ∷ 97 ∷ 32 ∷ 100 ∷ 101 ∷ 115 ∷ 107 ∷ 116 ∷ 111
          ∷ 112 ∷ 32 ∷ 108 ∷ 97 ∷ 117 ∷ 110 ∷ 99 ∷ 104 ∷ 101 ∷ 114 ∷ 32 ∷ 112 ∷ 114 ∷ 111 ∷ 116
          ∷ 111 ∷ 116 ∷ 121 ∷ 112 ∷ 101 ∷ 46 ∷ [])
      ∷ [];
}

abbrev pub system_monitor : App
system_monitor = record {
  x = 14;
  y = 4;
  width = 52;
  height = 14;
  -- System Monitor
  title = (83 ∷ 121 ∷ 115 ∷ 116 ∷ 101 ∷ 109 ∷ 32 ∷ 77 ∷ 111 ∷ 110 ∷ 105 ∷ 116 ∷ 111 ∷ 114 ∷ []);
  labels =
      -- CPU: scheduler tick active
      (67 ∷ 80 ∷ 85 ∷ 58 ∷ 32 ∷ 115 ∷ 99 ∷ 104 ∷ 101 ∷ 100 ∷ 117 ∷ 108 ∷ 101 ∷ 114 ∷ 32 ∷ 116 ∷ 105
        ∷ 99 ∷ 107 ∷ 32 ∷ 97 ∷ 99 ∷ 116 ∷ 105 ∷ 118 ∷ 101 ∷ [])
      ∷
          -- Memory: use mem/memstats in shell
          (77 ∷ 101 ∷ 109 ∷ 111 ∷ 114 ∷ 121 ∷ 58 ∷ 32 ∷ 117 ∷ 115 ∷ 101 ∷ 32 ∷ 109 ∷ 101 ∷ 109 ∷ 47
          ∷ 109 ∷ 101 ∷ 109 ∷ 115 ∷ 116 ∷ 97 ∷ 116 ∷ 115 ∷ 32 ∷ 105 ∷ 110 ∷ 32 ∷ 115 ∷ 104 ∷ 101
          ∷ 108 ∷ 108 ∷ [])
      ∷
          -- Processes: use ps/procinfo in shell
          (80 ∷ 114 ∷ 111 ∷ 99 ∷ 101 ∷ 115 ∷ 115 ∷ 101 ∷ 115 ∷ 58 ∷ 32 ∷ 117 ∷ 115 ∷ 101 ∷ 32 ∷ 112
          ∷ 115 ∷ 47 ∷ 112 ∷ 114 ∷ 111 ∷ 99 ∷ 105 ∷ 110 ∷ 102 ∷ 111 ∷ 32 ∷ 105 ∷ 110 ∷ 32 ∷ 115
          ∷ 104 ∷ 101 ∷ 108 ∷ 108 ∷ [])
      ∷ [];
}

abbrev pub network : App
network = record {
  x = 18;
  y = 6;
  width = 44;
  height = 11;
  -- Network
  title = (78 ∷ 101 ∷ 116 ∷ 119 ∷ 111 ∷ 114 ∷ 107 ∷ []);
  labels =
      -- Network stack initialized
      (78 ∷ 101 ∷ 116 ∷ 119 ∷ 111 ∷ 114 ∷ 107 ∷ 32 ∷ 115 ∷ 116 ∷ 97 ∷ 99 ∷ 107 ∷ 32 ∷ 105 ∷ 110
        ∷ 105 ∷ 116 ∷ 105 ∷ 97 ∷ 108 ∷ 105 ∷ 122 ∷ 101 ∷ 100 ∷ [])
      ∷
          -- Use wstest for live WebSocket test
          (85 ∷ 115 ∷ 101 ∷ 32 ∷ 119 ∷ 115 ∷ 116 ∷ 101 ∷ 115 ∷ 116 ∷ 32 ∷ 102 ∷ 111 ∷ 114 ∷ 32 ∷ 108
          ∷ 105 ∷ 118 ∷ 101 ∷ 32 ∷ 87 ∷ 101 ∷ 98 ∷ 83 ∷ 111 ∷ 99 ∷ 107 ∷ 101 ∷ 116 ∷ 32 ∷ 116 ∷ 101
          ∷ 115 ∷ 116 ∷ [])
      ∷
          -- Use future netstat command for stats
          (85 ∷ 115 ∷ 101 ∷ 32 ∷ 102 ∷ 117 ∷ 116 ∷ 117 ∷ 114 ∷ 101 ∷ 32 ∷ 110 ∷ 101 ∷ 116 ∷ 115
          ∷ 116 ∷ 97 ∷ 116 ∷ 32 ∷ 99 ∷ 111 ∷ 109 ∷ 109 ∷ 97 ∷ 110 ∷ 100 ∷ 32 ∷ 102 ∷ 111 ∷ 114 ∷ 32
          ∷ 115 ∷ 116 ∷ 97 ∷ 116 ∷ 115 ∷ [])
      ∷ [];
}

abbrev pub about : App
about = record {
  x = 12;
  y = 5;
  width = 56;
  height = 13;
  -- About TradeKernel
  title =
      (65 ∷ 98 ∷ 111 ∷ 117 ∷ 116 ∷ 32 ∷ 84 ∷ 114 ∷ 97 ∷ 100 ∷ 101 ∷ 75 ∷ 101 ∷ 114 ∷ 110 ∷ 101 ∷ 108
        ∷ []);
  labels =
      -- TradeKernel OS - text desktop preview
      (84 ∷ 114 ∷ 97 ∷ 100 ∷ 101 ∷ 75 ∷ 101 ∷ 114 ∷ 110 ∷ 101 ∷ 108 ∷ 32 ∷ 79 ∷ 83 ∷ 32 ∷ 45 ∷ 32
        ∷ 116 ∷ 101 ∷ 120 ∷ 116 ∷ 32 ∷ 100 ∷ 101 ∷ 115 ∷ 107 ∷ 116 ∷ 111 ∷ 112 ∷ 32 ∷ 112 ∷ 114
        ∷ 101 ∷ 118 ∷ 105 ∷ 101 ∷ 119 ∷ [])
      ∷
          -- Goal: evolve into framebuffer compositor
          (71 ∷ 111 ∷ 97 ∷ 108 ∷ 58 ∷ 32 ∷ 101 ∷ 118 ∷ 111 ∷ 108 ∷ 118 ∷ 101 ∷ 32 ∷ 105 ∷ 110 ∷ 116
          ∷ 111 ∷ 32 ∷ 102 ∷ 114 ∷ 97 ∷ 109 ∷ 101 ∷ 98 ∷ 117 ∷ 102 ∷ 102 ∷ 101 ∷ 114 ∷ 32 ∷ 99 ∷ 111
          ∷ 109 ∷ 112 ∷ 111 ∷ 115 ∷ 105 ∷ 116 ∷ 111 ∷ 114 ∷ [])
      ∷
          -- Now includes a panel and app launcher
          (78 ∷ 111 ∷ 119 ∷ 32 ∷ 105 ∷ 110 ∷ 99 ∷ 108 ∷ 117 ∷ 100 ∷ 101 ∷ 115 ∷ 32 ∷ 97 ∷ 32 ∷ 112
          ∷ 97 ∷ 110 ∷ 101 ∷ 108 ∷ 32 ∷ 97 ∷ 110 ∷ 100 ∷ 32 ∷ 97 ∷ 112 ∷ 112 ∷ 32 ∷ 108 ∷ 97 ∷ 117
          ∷ 110 ∷ 99 ∷ 104 ∷ 101 ∷ 114 ∷ [])
      ∷ [];
}
