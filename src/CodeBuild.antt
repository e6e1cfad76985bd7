-- ===== src/CodeBuild.antt =====
-- The provisioner of AWS::CodeBuild::ImageBuild, pkg/cfres/codebuild: a build of a container image
-- that the agent polls, whose image is pushed to a repository.
pub mod Client
pub mod Ids
pub mod Input
pub mod Buildspec
pub mod Images
pub mod Poll
pub mod Builds
pub mod Deletion
