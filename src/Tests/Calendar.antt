-- ===== src/Tests/Calendar.antt =====
-- The arithmetic of the calendar, with 2 buckets to a queue and granules of 16 ns.
use flow_bundler.Common.{◌*◌, ◌^◌, ◌<◌, ◌≡◌, arith, min}
use flow_bundler.FlowBundler.Geometry.{
  Geometry, IsGeometry, init_geometry, find_queue_index, find_real_location,
}
use flow_bundler.FlowBundler.Start.{init_geometry-IsGeometry}
use flow_bundler.FlowBundler.Place.{
  slot_time, place, find_real_location-place, find_real_location-finer,
}
use flow_bundler.FlowBundler.Rates.{find_queue_index_bounds}

abbrev calendar : Geometry
calendar = init_geometry 1 4

calendar-IsGeometry : IsGeometry calendar
calendar-IsGeometry = init_geometry-IsGeometry 1 4 (omega arith) (omega arith)

-- 1000 ns is rounded up to 1024 in queue 3.
find_real_location-finer_example :
    find_real_location calendar 1 (slot_time calendar 3 1000) ≡ find_real_location calendar 3 1000
unfolding init_geometry
find_real_location-finer_example =
    find_real_location-finer calendar 1 3 1000 calendar-IsGeometry (omega arith) (omega arith)
      (omega arith)

find_real_location-place_example :
    find_real_location calendar 3 1000 ≡ place calendar (slot_time calendar 3 1000)
unfolding init_geometry
find_real_location-place_example =
    find_real_location-place calendar 3 1000 calendar-IsGeometry (omega arith) (omega arith)

find_queue_index_bounds_example :
    (find_queue_index calendar 1_000_000 < 64)
    × (calendar.max_rate
        < 2 * (min 1_000_000 calendar.max_rate * 2 ^ find_queue_index calendar 1_000_000))
    × (min 1_000_000 calendar.max_rate * 2 ^ find_queue_index calendar 1_000_000
        < 2 * calendar.max_rate)
find_queue_index_bounds_example =
    find_queue_index_bounds calendar 1_000_000 calendar-IsGeometry (omega arith)
