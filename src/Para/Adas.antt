-- ===== src/Para/Adas.antt =====
-- `AdasParaSetting` of prot.h, and the table and the defaults of para.cpp for it.
use sanbao_prot.Base.{ℕ, List, [], ◌∷◌}
use sanbao_prot.Field.{Field, byte, word, Rule}

-- sizeof
abbrev pub size : ℕ
size = 50

abbrev pub warning_speed_val : Field
warning_speed_val = byte 0

abbrev pub warning_volume : Field
warning_volume = byte 1

abbrev pub auto_photo_mode : Field
auto_photo_mode = byte 2

abbrev pub auto_photo_time_period : Field
auto_photo_time_period = word 3

abbrev pub auto_photo_distance_period : Field
auto_photo_distance_period = word 5

abbrev pub photo_num : Field
photo_num = byte 7

abbrev pub photo_time_period : Field
photo_time_period = byte 8

abbrev pub image_resolution : Field
image_resolution = byte 9

abbrev pub video_resolution : Field
video_resolution = byte 10

abbrev pub obstacle_distance_threshold : Field
obstacle_distance_threshold = byte 20

abbrev pub obstacle_video_time : Field
obstacle_video_time = byte 21

abbrev pub obstacle_photo_num : Field
obstacle_photo_num = byte 22

abbrev pub obstacle_photo_time_period : Field
obstacle_photo_time_period = byte 23

abbrev pub flc_time_threshold : Field
flc_time_threshold = byte 24

abbrev pub flc_times_threshold : Field
flc_times_threshold = byte 25

abbrev pub flc_video_time : Field
flc_video_time = byte 26

abbrev pub flc_photo_num : Field
flc_photo_num = byte 27

abbrev pub flc_photo_time_period : Field
flc_photo_time_period = byte 28

abbrev pub ldw_video_time : Field
ldw_video_time = byte 29

abbrev pub ldw_photo_num : Field
ldw_photo_num = byte 30

abbrev pub ldw_photo_time_period : Field
ldw_photo_time_period = byte 31

abbrev pub fcw_time_threshold : Field
fcw_time_threshold = byte 32

abbrev pub fcw_video_time : Field
fcw_video_time = byte 33

abbrev pub fcw_photo_num : Field
fcw_photo_num = byte 34

abbrev pub fcw_photo_time_period : Field
fcw_photo_time_period = byte 35

abbrev pub pcw_time_threshold : Field
pcw_time_threshold = byte 36

abbrev pub pcw_video_time : Field
pcw_video_time = byte 37

abbrev pub pcw_photo_num : Field
pcw_photo_num = byte 38

abbrev pub pcw_photo_time_period : Field
pcw_photo_time_period = byte 39

abbrev pub hw_time_threshold : Field
hw_time_threshold = byte 40

abbrev pub hw_video_time : Field
hw_video_time = byte 41

abbrev pub hw_photo_num : Field
hw_photo_num = byte 42

abbrev pub hw_photo_time_period : Field
hw_photo_time_period = byte 43

abbrev pub tsr_photo_num : Field
tsr_photo_num = byte 44

abbrev pub tsr_photo_time_period : Field
tsr_photo_time_period = byte 45

-- The fields in the order of the structure, without the reserved arrays.
abbrev pub layout : List Field
layout =
    warning_speed_val ∷ warning_volume ∷ auto_photo_mode ∷ auto_photo_time_period
    ∷ auto_photo_distance_period ∷ photo_num ∷ photo_time_period ∷ image_resolution
    ∷ video_resolution ∷ obstacle_distance_threshold ∷ obstacle_video_time ∷ obstacle_photo_num
    ∷ obstacle_photo_time_period ∷ flc_time_threshold ∷ flc_times_threshold ∷ flc_video_time
    ∷ flc_photo_num ∷ flc_photo_time_period ∷ ldw_video_time ∷ ldw_photo_num ∷ ldw_photo_time_period
    ∷ fcw_time_threshold ∷ fcw_video_time ∷ fcw_photo_num ∷ fcw_photo_time_period
    ∷ pcw_time_threshold ∷ pcw_video_time ∷ pcw_photo_num ∷ pcw_photo_time_period
    ∷ hw_time_threshold ∷ hw_video_time ∷ hw_photo_num ∷ hw_photo_time_period ∷ tsr_photo_num
    ∷ tsr_photo_time_period ∷ []

abbrev rule : Field → ℕ → ℕ → ℕ → Rule
rule f lo hi fallback = record { field = f; lo = lo; hi = hi; fallback = fallback }

-- The checks of `adas_para_check`, in order. `< 0` never holds of an unsigned field.
abbrev pub rules : List Rule
rules =
    rule warning_speed_val 0 60 30
    ∷ rule warning_volume 0 8 6
    ∷ rule auto_photo_mode 0 3 0
    ∷ rule auto_photo_time_period 0 3600 1800
    ∷ rule auto_photo_distance_period 0 60000 100
    ∷ rule photo_num 1 10 3
    ∷ rule photo_time_period 1 5 2
    ∷ rule image_resolution 1 6 1
    ∷ rule video_resolution 1 7 1
    ∷ rule obstacle_distance_threshold 10 50 30
    ∷ rule obstacle_video_time 0 60 5
    ∷ rule obstacle_photo_num 0 10 3
    ∷ rule obstacle_photo_time_period 1 10 2
    ∷ rule flc_time_threshold 30 120 60
    ∷ rule flc_times_threshold 3 10 5
    ∷ rule flc_video_time 0 60 5
    ∷ rule flc_photo_num 0 10 3
    ∷ rule flc_photo_time_period 1 10 2
    ∷ rule ldw_video_time 0 60 5
    ∷ rule ldw_photo_num 0 10 3
    ∷ rule ldw_photo_time_period 1 10 2
    ∷ rule fcw_time_threshold 10 50 27
    ∷ rule fcw_video_time 0 60 5
    ∷ rule fcw_photo_num 0 10 3
    ∷ rule fcw_photo_time_period 1 10 2
    ∷ rule pcw_time_threshold 0 50 30
    ∷ rule pcw_video_time 0 60 5
    ∷ rule pcw_photo_num 0 10 3
    ∷ rule pcw_photo_time_period 1 10 2
    ∷ rule hw_time_threshold 0 50 30
    ∷ rule hw_video_time 0 60 5
    ∷ rule hw_photo_num 0 10 3
    ∷ rule hw_photo_time_period 1 10 2
    ∷ rule tsr_photo_num 0 10 3
    ∷ rule tsr_photo_time_period 1 10 2
    ∷ []

-- The assignments of `set_AdasParaSetting_default`, in order; the reserved bytes are set to 0.
abbrev pub defaults : List (Field × ℕ)
defaults =
    (warning_speed_val, 30)
    ∷ (warning_volume, 6)
    ∷ (auto_photo_mode, 0)
    ∷ (auto_photo_time_period, 1800)
    ∷ (auto_photo_distance_period, 100)
    ∷ (photo_num, 3)
    ∷ (photo_time_period, 2)
    ∷ (image_resolution, 1)
    ∷ (video_resolution, 1)
    ∷ (obstacle_distance_threshold, 30)
    ∷ (obstacle_video_time, 5)
    ∷ (obstacle_photo_num, 3)
    ∷ (obstacle_photo_time_period, 2)
    ∷ (flc_time_threshold, 60)
    ∷ (flc_times_threshold, 5)
    ∷ (flc_video_time, 5)
    ∷ (flc_photo_num, 3)
    ∷ (flc_photo_time_period, 2)
    ∷ (ldw_video_time, 5)
    ∷ (ldw_photo_num, 3)
    ∷ (ldw_photo_time_period, 2)
    ∷ (fcw_time_threshold, 27)
    ∷ (fcw_video_time, 5)
    ∷ (fcw_photo_num, 3)
    ∷ (fcw_photo_time_period, 2)
    ∷ (pcw_time_threshold, 30)
    ∷ (pcw_video_time, 5)
    ∷ (pcw_photo_num, 3)
    ∷ (pcw_photo_time_period, 2)
    ∷ (hw_time_threshold, 30)
    ∷ (hw_video_time, 5)
    ∷ (hw_photo_num, 3)
    ∷ (hw_photo_time_period, 2)
    ∷ (tsr_photo_num, 3)
    ∷ (tsr_photo_time_period, 2)
    ∷ []
